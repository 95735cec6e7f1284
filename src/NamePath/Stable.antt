-- ===== src/NamePath/Stable.antt =====
-- Name paths whose parts hold no dot, through setPath, addPath and mergePath.
use go_zetasqlite.Prelude.{
  ℕ, zero, suc, ◌+◌, ◌≤◌, ◌≡◌, refl, sym, ◌⊎◌, inl, inr, Bool, true, false, ◌&&◌, List, [], ◌∷◌,
  ◌++◌, length, take, All, All-append, length-append, ltb, ◌==◌, if◌then◌else◌, arith, Bool-cases,
}
use go_zetasqlite.Prelude.Bytes.{Bytes}
use go_zetasqlite.Result.{ok, err, too_many_paths}
use go_zetasqlite.NamePath.{
  NamePath, get_max_num, dot, cons_head, split, normalize_path, merge_path, set_path, add_path,
}
use go_zetasqlite.NamePath.Merge.{kept, kept-same, take-nil, limit_of, merge_path-kept}

-- No part holds a dot.
abbrev pub NoDot : Bytes → Type 0
NoDot [] = Unit
NoDot (b ∷ s) = ((b == dot) ≡ false) × NoDot s

split-NoDot : (s : Bytes) → All NoDot (split s)
unfolding split
split-NoDot [] = (tt, tt)
split-NoDot (b ∷ s) = elim (Bool-cases (b == dot)) [
  | inl e ↦ rw e (tt, split-NoDot s)
  | inr e ↦ rw e (cons e (split s) (split-NoDot s))
]
  where
    cons : (b == dot) ≡ false → (ss : List Bytes) → All NoDot ss → All NoDot (cons_head b ss)
    cons e [] h = ((e, tt), tt)
    cons e (s' ∷ ss) h = ((e, h.0), h.1)

split-single : (s : Bytes) → NoDot s → split s ≡ s ∷ []
unfolding split
split-single [] h = refl
split-single (b ∷ s) (hb, h) = rw (hb, split-single s h)

normalize_path-NoDot : (path : List Bytes) → All NoDot (normalize_path path)
unfolding normalize_path
normalize_path-NoDot [] = tt
normalize_path-NoDot (part ∷ path) =
    All-append NoDot (split part) (normalize_path path) (split-NoDot part)
      (normalize_path-NoDot path)

normalize_path-normal : (path : List Bytes) → All NoDot path → normalize_path path ≡ path
unfolding normalize_path
normalize_path-normal [] h = refl
normalize_path-normal (part ∷ path) (hp, h) =
    rw (split-single part hp, normalize_path-normal path h)

All-take : (n : ℕ) (xs : List Bytes) → All NoDot xs → All NoDot (take n xs)
All-take zero xs h = tt
All-take (suc n) [] h = tt
All-take (suc n) (x ∷ xs) (hx, h) = (hx, All-take n xs h)

-- The parts kept of the base path are none when they have been put before the path already.
stable :
    (max : List Bytes → ℕ) (normal bases : List Bytes)
    → let q = take (kept (max normal) normal bases) bases ++ normal in
      take (kept (max q) q bases) bases ++ q ≡ q
stable max normal [] =
    rw (take-nil (kept (max normal) normal []), take-nil (kept (max normal) normal []))
stable max normal (base ∷ bases) = by_kept (kept (max normal) normal (base ∷ bases)) refl
  where
    by_kept :
        (k : ℕ)
        → kept (max normal) normal (base ∷ bases) ≡ k
        → let q = take k (base ∷ bases) ++ normal in
          take (kept (max q) q (base ∷ bases)) (base ∷ bases) ++ q ≡ q
    by_kept zero e = rw e
    by_kept (suc k) e =
        let parts = take k bases ++ normal in rw (kept-same (max (base ∷ parts)) base parts bases)

-- Merging what a merge has given changes nothing, when no part of the base path holds a dot.
pub merge_path-idempotent :
    (p : NamePath) (path : List Bytes)
    → All NoDot p.path
    → merge_path p (merge_path p path) ≡ merge_path p path
merge_path-idempotent p path h =
    rw
      (
        merge_path-kept p (merge_path p path),
        merge_path-kept p path,
        normalize_path-normal merged merged-NoDot,
      )
      (stable (get_max_num p) (normalize_path path) p.path)
  where
    merged : List Bytes
    merged =
        take (kept (limit_of p path) (normalize_path path) p.path) p.path ++ normalize_path path

    merged-NoDot : All NoDot merged
    merged-NoDot =
        All-append NoDot (take (kept (limit_of p path) (normalize_path path) p.path) p.path)
          (normalize_path path)
          (All-take (kept (limit_of p path) (normalize_path path) p.path) p.path h)
          (normalize_path-NoDot path)

guarded :
    (full : Bool) (r : NamePath) {q : NamePath}
    → (if full then err too_many_paths else ok r) ≡ ok q
    → (full ≡ false) × (r ≡ q)
guarded true r h = cc
guarded false r h = (refl, cc)

within : (max n : ℕ) → (ltb 0 max && ltb max n) ≡ false → (max ≡ 0) ⊎ (n ≤ max)
within max n h = ground arith

-- The base path after a successful set_path: the parts of the given path, none of which holds a dot,
-- at most as many as the limit allows where there is one; the limit stays.
pub set_path-ok :
    (p q : NamePath) (path : List Bytes)
    → set_path p path ≡ ok q
    → (q.path ≡ normalize_path path)
      × All NoDot q.path
      × (q.max_num ≡ p.max_num)
      × ((get_max_num p path ≡ 0) ⊎ (length q.path ≤ get_max_num p path))
unfolding set_path
set_path-ok p q path h =
    let g =
      guarded (ltb 0 max && ltb max (length normal)) (record { path = normal; max_num = p.max_num })
        h in
    rw (sym g.1) (refl, normalize_path-NoDot path, refl, within max (length normal) g.0)
  where
    normal : List Bytes
    normal = normalize_path path

    max : ℕ
    max = get_max_num p path

-- A successful add_path puts the parts of the given path behind the base path; no part holds a dot
-- if none did before, and there are at most as many as the limit allows where there is one.
pub add_path-ok :
    (p q : NamePath) (path : Bytes)
    → All NoDot p.path
    → add_path p path ≡ ok q
    → (q.path ≡ p.path ++ normalize_path (path ∷ []))
      × All NoDot q.path
      × (q.max_num ≡ p.max_num)
      × ((get_max_num p (normalize_path (path ∷ [])) ≡ 0)
          ⊎ (length q.path ≤ get_max_num p (normalize_path (path ∷ []))))
unfolding add_path
add_path-ok p q path h e =
    let g =
      guarded (ltb 0 max && ltb max (length p.path + length normal))
        (record { path = p.path ++ normal; max_num = p.max_num }) e in
    rw (sym g.1) (
      refl,
      All-append NoDot p.path normal h (normalize_path-NoDot (path ∷ [])),
      refl,
      rw (length-append p.path normal) (within max (length p.path + length normal) g.0),
    )
  where
    normal : List Bytes
    normal = normalize_path (path ∷ [])

    max : ℕ
    max = get_max_num p normal
