-- ===== src/NamePath/Merge.antt =====
-- What mergePath takes of the base path.
use go_zetasqlite.Prelude.{
  ℕ, zero, suc, ◌+◌, ◌-◌, ◌≤◌, ◌<◌, ◌≡◌, refl, sym, ◌≢◌, ◌⊎◌, inl, inr, true, false, ◌&&◌, List, [],
  ◌∷◌, ◌++◌, length, take, length-append, length-take, append-nil, ltb, leb, ◌==◌, if◌then◌else◌,
  arith, Bool-cases, lt→ltb,
}
use go_zetasqlite.Prelude.Bytes.{Bytes, bytes_eq, bytes_eq_refl}
use go_zetasqlite.NamePath.{
  NamePath, get_max_num, dot, split, normalize_path, take_base, merge_normal, merge_path,
}

abbrev pub nil : List Bytes
nil = []

-- The parts before the first that equals `first`.
abbrev pub index_of : Bytes → List Bytes → ℕ
index_of first [] = 0
index_of first (base ∷ bases) = if bytes_eq first base then 0 else suc (index_of first bases)

abbrev pub smaller : ℕ → ℕ → ℕ
smaller a b = if leb a b then a else b

-- How many parts of the base path stay: those before the path's own first part, and at most as many
-- as the limit leaves room for.
abbrev pub kept : ℕ → List Bytes → List Bytes → ℕ
kept max [] bases = length bases
kept max (first ∷ parts) bases =
    if ltb 0 max
    then smaller (index_of first bases) (max - length (first ∷ parts))
    else index_of first bases

take_base-unlimited :
    (first : Bytes) (n merged : ℕ) (bases : List Bytes)
    → take_base 0 first n merged bases ≡ take (index_of first bases) bases
unfolding take_base
take_base-unlimited first n merged [] = refl
take_base-unlimited first n merged (base ∷ bases) = elim (Bool-cases (bytes_eq first base)) [
  | inl e ↦ rw e
  | inr e ↦ rw (e, take_base-unlimited first n (merged + 1) bases)
]

pub take-nil : (k : ℕ) → take k nil ≡ nil
take-nil zero = refl
take-nil (suc k) = refl

take-length {ℓ} : {A : Type ℓ} (xs : List A) → take (length xs) xs ≡ xs
take-length [] = refl
take-length (x ∷ xs) = rw (take-length xs)

smaller-zero_left : (b : ℕ) → smaller 0 b ≡ 0
smaller-zero_left b = ground arith

smaller-zero_right : (a : ℕ) → smaller a 0 ≡ 0
smaller-zero_right a = ground arith

smaller-suc : (a b : ℕ) → smaller (suc a) (suc b) ≡ suc (smaller a b)
smaller-suc a b = ground arith

take_base-limited :
    (max : ℕ) (first : Bytes) (n merged : ℕ) (bases : List Bytes)
    → 0 < max
    → take_base max first n merged bases
      ≡ take (smaller (index_of first bases) (max - (merged + n))) bases
unfolding take_base
take_base-limited max first n merged [] pos_max = sym (take-nil (smaller 0 (max - (merged + n))))
take_base-limited max first n merged (base ∷ bases) pos_max =
    elim (Bool-cases (bytes_eq first base)) [
      | inl e ↦ rw (e, smaller-zero_left (max - (merged + n)))
      | inr e ↦ elim (Bool-cases (leb max (merged + n))) [
        | inl full ↦ rw (
          e,
          lt→ltb 0 max pos_max,
          full,
          sub-le max (merged + n) full,
          smaller-zero_right (suc (index_of first bases)),
        )
        | inr room ↦ rw (
          e,
          lt→ltb 0 max pos_max,
          room,
          sub-suc max merged n room,
          smaller-suc (index_of first bases) (max - (merged + 1 + n)),
          take_base-limited max first n (merged + 1) bases pos_max,
        )
      ]
    ]
  where
    sub-le : (a b : ℕ) → leb a b ≡ true → a - b ≡ 0
    sub-le a b h = ground (arith, h)

    sub-suc : (a m n : ℕ) → leb a (m + n) ≡ false → a - (m + n) ≡ suc (a - (m + 1 + n))
    sub-suc a m n h = ground (arith, h)

-- The limit is the one for a path with as many parts as the path has.
abbrev pub limit_of : NamePath → List Bytes → ℕ
limit_of p path = get_max_num p (normalize_path path)

-- Merging a path keeps the parts of the base path before the path's own first part, at most as many
-- as the limit leaves room for, and puts the path's parts behind them.
pub merge_path-kept :
    (p : NamePath) (path : List Bytes)
    → merge_path p path
      ≡ take (kept (limit_of p path) (normalize_path path) p.path) p.path ++ normalize_path path
unfolding merge_path
merge_path-kept p path = lem (limit_of p path) (normalize_path path)
  where
    whole : p.path ≡ take (length p.path) p.path ++ []
    whole = rw (take-length p.path, append-nil p.path)

    zero_plus : (n : ℕ) → 0 + n ≡ n
    zero_plus n = omega arith

    unequal : (m : ℕ) → (ltb 0 (suc m) && (0 == suc m)) ≡ false
    unequal m = ground arith

    full : (a b : ℕ) → (a == b) ≡ true → b - a ≡ 0
    full a b h = ground (arith, h)

    lem :
        (max : ℕ) (normal : List Bytes)
        → (if ltb 0 max && (length normal == max) then normal else merge_normal p max normal)
          ≡ take (kept max normal p.path) p.path ++ normal
    lem zero [] = whole
    lem (suc m) [] = rw (unequal m) whole
    lem zero (first ∷ parts) = rw (take_base-unlimited first (length (first ∷ parts)) 0 p.path)
    lem (suc m) (first ∷ parts) = elim (Bool-cases (length (first ∷ parts) == suc m)) [
      | inl e ↦ rw (
        lt→ltb 0 (suc m) (omega arith),
        e,
        full (length (first ∷ parts)) (suc m) e,
        smaller-zero_right (index_of first p.path),
      )
      | inr e ↦ rw (
        lt→ltb 0 (suc m) (omega arith),
        e,
        take_base-limited (suc m) first (length (first ∷ parts)) 0 p.path (omega arith),
        zero_plus (length (first ∷ parts)),
      )
    ]

-- A path that begins as the base path does keeps none of it.
pub kept-same :
    (max : ℕ) (first : Bytes) (parts bases : List Bytes)
    → kept max (first ∷ parts) (first ∷ bases) ≡ 0
kept-same max first parts bases = elim (Bool-cases (ltb 0 max)) [
  | inl e ↦ rw (e, bytes_eq_refl first, smaller-zero_left (max - length (first ∷ parts)))
  | inr e ↦ rw (e, bytes_eq_refl first)
]

split-cons : (s : Bytes) → (first : Bytes) × (rest : List Bytes) × (split s ≡ first ∷ rest)
unfolding split
split-cons [] = ([], [], refl)
split-cons (b ∷ s) = elim (Bool-cases (b == dot)) [
  | inl e ↦ ([], split s, rw e)
  | inr e ↦ let ih = split-cons s in (b ∷ ih.0, ih.1, rw (e, ih.2))
]

kept-le :
    (max : ℕ) (first : Bytes) (parts bases : List Bytes)
    → 0 < max
    → kept max (first ∷ parts) bases ≤ max - length (first ∷ parts)
kept-le max first parts bases h =
    rw (lt→ltb 0 max h) (smaller-le (index_of first bases) (max - length (first ∷ parts)))
  where
    smaller-le : (a b : ℕ) → smaller a b ≤ b
    smaller-le a b = ground arith

normalize-nonempty : (path : List Bytes) → path ≢ [] → 0 < length (normalize_path path)
unfolding normalize_path
normalize-nonempty [] h = elim (h refl) [ ]
normalize-nonempty (part ∷ path) h =
    let c = split-cons part in
    rw (length-append (split part) (normalize_path path), c.2) (omega arith)

-- Under a limit, merging a path that is not empty gives at most as many parts as the limit allows,
-- or exactly the parts of the path.
pub length-merge_path :
    (p : NamePath) (path : List Bytes)
    → 0 < limit_of p path
    → path ≢ []
    → (length (merge_path p path) ≤ limit_of p path) ⊎ (merge_path p path ≡ normalize_path path)
length-merge_path p path limited nonempty =
    rw (merge_path-kept p path)
      (bound (limit_of p path) (normalize_path path) limited (normalize-nonempty path nonempty))
  where
    bound :
        (max : ℕ) (normal : List Bytes)
        → 0 < max
        → 0 < length normal
        → (length (take (kept max normal p.path) p.path ++ normal) ≤ max)
          ⊎ (take (kept max normal p.path) p.path ++ normal ≡ normal)
    bound max [] pos_max h = omega arith
    bound max (first ∷ parts) pos_max h =
        cases (kept max (first ∷ parts) p.path) (kept-le max first parts p.path pos_max)
      where
        cases :
            (k : ℕ)
            → k ≤ max - length (first ∷ parts)
            → (length (take k p.path ++ (first ∷ parts)) ≤ max)
              ⊎ (take k p.path ++ (first ∷ parts) ≡ first ∷ parts)
        cases zero le = inr refl
        cases (suc k) le = inl (
            rw (length-append (take (suc k) p.path) (first ∷ parts))
              (omega (arith, length-take (suc k) p.path, le)))
