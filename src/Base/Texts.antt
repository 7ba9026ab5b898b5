-- ===== src/Base/Texts.antt =====
-- Texts as lists of code points or bytes, and files by their name.
use http_harness.Base.Tests.{◌==◌, if◌then◌else◌, ==-refl, Bool-cases}
use http_harness.Base.Scopes.{list_eq}
use Prim.Native.Nat.{ℕ, suc}
use mathlib.Core.Path.{◌≡◌, refl}
use mathlib.Core.Logic.{◌⊎◌, inl, inr}
use mathlib.Core.Bool.{true}
use mathlib.Core.Option.{Option, none, some}
use mathlib.Core.List.{List, [], ◌∷◌, ◌++◌}
use native.Mathlib.Omega.{arith}

abbrev pub Text : Type 0
Text = List ℕ

abbrev pub length {ℓ} : {A : Type ℓ} → List A → ℕ
length [] = 0
length (x ∷ xs) = suc (length xs)

pub list_eq_refl : (t : Text) → list_eq t t ≡ true
list_eq_refl [] = refl
list_eq_refl (c ∷ t) = ground (arith, ==-refl c, list_eq_refl t)

pub list_eq→eq : (s t : Text) → list_eq s t ≡ true → s ≡ t
list_eq→eq [] [] h = refl
list_eq→eq [] (_ ∷ _) h = ground arith
list_eq→eq (_ ∷ _) [] h = ground arith
list_eq→eq (c ∷ s) (d ∷ t) h = ground (arith, list_eq→eq s t)

abbrev push : ℕ → List Text → List Text
push c [] = (c ∷ []) ∷ []
push c (part ∷ parts) = (c ∷ part) ∷ parts

-- `text.split(c)`
unfoldable pub split : ℕ → Text → List Text
split c [] = [] ∷ []
split c (x ∷ t) = let rest = split c t in if x == c then [] ∷ rest else push x rest

-- `c.join(parts)`
unfoldable pub join : ℕ → List Text → Text
join c [] = []
join c (part ∷ []) = part
join c (part ∷ next ∷ parts) = part ++ c ∷ join c (next ∷ parts)

join-push : (c x : ℕ) (parts : List Text) → join c (push x parts) ≡ x ∷ join c parts
unfolding join
join-push c x [] = refl
join-push c x (part ∷ []) = refl
join-push c x (part ∷ next ∷ parts) = refl

join-split-cons : (c : ℕ) (t : Text) → join c ([] ∷ split c t) ≡ c ∷ join c (split c t)
unfolding split join
join-split-cons c [] = refl
join-split-cons c (x ∷ t) = elim (Bool-cases (x == c)) [
  | inl e ↦ rw e refl
  | inr e ↦ rw e (split-push c x (split c t))
]
  where
    split-push :
        (c x : ℕ) (parts : List Text) → join c ([] ∷ push x parts) ≡ c ∷ join c (push x parts)
    split-push c x [] = refl
    split-push c x (part ∷ parts) = refl

pub join-split : (c : ℕ) (t : Text) → join c (split c t) ≡ t
unfolding split join
join-split c [] = refl
join-split c (x ∷ t) = elim (Bool-cases (x == c)) [
  | inl e ↦ rw e (ground (arith, join-split-cons c t, join-split c t))
  | inr e ↦ rw e (ground (arith, join-push c x (split c t), join-split c t))
]

-- Files of a directory, by name.
abbrev pub Files : Type 0
Files = List (Text × Text)

unfoldable pub find_file : Text → Files → Option Text
find_file name [] = none
find_file name ((n, content) ∷ files) =
    if list_eq n name then some content else find_file name files

-- Publication by rename, which leaves a file that exists.
unfoldable pub publish : Text → Text → Files → Files
publish name content [] = (name, content) ∷ []
publish name content ((n, c) ∷ files) =
    if list_eq n name then (n, c) ∷ files else (n, c) ∷ publish name content files

unfoldable pub remove : Text → Files → Files
remove name [] = []
remove name ((n, c) ∷ files) =
    let rest = remove name files in if list_eq n name then rest else (n, c) ∷ rest

unfoldable pub names : Files → List Text
names [] = []
names ((n, c) ∷ files) = n ∷ names files

pub find_file-publish_kept :
    (name k content c : Text) (files : Files)
    → find_file name files ≡ some c
    → find_file name (publish k content files) ≡ some c
unfolding find_file publish
find_file-publish_kept name k content c [] h = absurd (cc)
find_file-publish_kept name k content c ((n, d) ∷ files) h =
    ground (arith, find_file-publish_kept name k content c files)

-- A file that is found after a publication was there, or is the one published.
pub find_file-publish_cases :
    (name k content c : Text) (files : Files)
    → find_file name (publish k content files) ≡ some c
    → (find_file name files ≡ some c) ⊎ ((k ≡ name) × (c ≡ content))
unfolding find_file publish
find_file-publish_cases name k content c [] h = elim (Bool-cases (list_eq k name)) [
  | inl e ↦ inr (list_eq→eq k name e, ground arith)
  | inr e ↦ absurd (ground arith)
]
find_file-publish_cases name k content c ((n, d) ∷ files) h = elim (Bool-cases (list_eq n k)) [
  | inl e ↦ inl (ground arith)
  | inr e ↦ elim (Bool-cases (list_eq n name)) [
    | inl same ↦ inl (ground arith)
    | inr other ↦
        let below : (find_file name files ≡ some c) ⊎ ((k ≡ name) × (c ≡ content)) =
          find_file-publish_cases name k content c files (ground arith) in
        elim below [ inl p ↦ inl (ground arith) | inr p ↦ inr p ]
  ]
]

pub find_file-publish :
    (name content : Text) (files : Files)
    → (c : Text) × (find_file name (publish name content files) ≡ some c)
unfolding find_file publish
find_file-publish name content [] = (content, ground (arith, list_eq_refl name))
find_file-publish name content ((n, d) ∷ files) =
    let (c, e) = find_file-publish name content files in
    elim (Bool-cases (list_eq n name)) [
      | inl same ↦ (d, ground arith)
      | inr other ↦ (c, ground arith)
    ]

pub find_file-remove :
    (name k : Text) (files : Files)
    → find_file name (remove k files) ≡ (if list_eq k name then none else find_file name files)
unfolding find_file remove
find_file-remove name k [] = ground arith
find_file-remove name k ((n, d) ∷ files) = ground (
  arith,
  find_file-remove name k files,
  list_eq→eq n k,
  list_eq→eq n name,
  list_eq→eq k name,
  list_eq_refl k,
)
