-- ===== src/Common/Dict.antt =====
-- Python's dictionaries by id: an association list in insertion order, with one entry for a key.
use call_audit_supervisor.Common.{
  ℕ, ◌≡◌, refl, ◌∙◌, inl, inr, true, false, Option, none, some, List, [], ◌∷◌, All, ◌==◌,
  if◌then◌else◌, Bool-cases, arith, ==_refl,
}

module _ {A : Type 0} where
  -- `d.get(k)`
  abbrev pub get : ℕ → List (ℕ × A) → Option A
  get k [] = none
  get k ((i, a) ∷ d) = let rest = get k d in if i == k then some a else rest

  -- `d[k] = a`
  abbrev pub set : ℕ → A → List (ℕ × A) → List (ℕ × A)
  set k a [] = (k, a) ∷ []
  set k a ((i, b) ∷ d) = let rest = set k a d in if i == k then (i, a) ∷ d else (i, b) ∷ rest

  abbrev pub values : List (ℕ × A) → List A
  values [] = []
  values ((i, a) ∷ d) = a ∷ values d

  pub get-set_same : (k : ℕ) (a : A) (d : List (ℕ × A)) → get k (set k a d) ≡ some a
  get-set_same k a [] = rw (==_refl k) refl
  get-set_same k a ((i, b) ∷ d) = ground (arith, get-set_same k a d)

  pub get-set_other :
      (j k : ℕ) (a : A) (d : List (ℕ × A)) → (k == j) ≡ false → get j (set k a d) ≡ get j d
  get-set_other j k a [] h = rw h refl
  get-set_other j k a ((i, b) ∷ d) h = ground (arith, get-set_other j k a d h)

module _ {A : Type 0} (key : A → ℕ) where
  -- `for a in xs: d[key(a)] = a`
  abbrev pub set_all : List A → List (ℕ × A) → List (ℕ × A)
  set_all [] d = d
  set_all (x ∷ xs) d = set_all xs (set (key x) x d)

  -- `{key(a): a for a in xs}`
  abbrev pub by_key : List A → List (ℕ × A)
  by_key xs = set_all xs []

  -- The last of the values with a key, or what was there before.
  abbrev pub last_of : ℕ → List A → Option A → Option A
  last_of k [] before = before
  last_of k (x ∷ xs) before =
      let yes = last_of k xs (some x) in
      let no = last_of k xs before in if key x == k then yes else no

  pub get-set_all :
      (k : ℕ) (xs : List A) (d : List (ℕ × A)) → get k (set_all xs d) ≡ last_of k xs (get k d)
  get-set_all k [] d = refl
  get-set_all k (x ∷ xs) d = elim (Bool-cases (key x == k)) [
    | inl e ↦ rw (get-set_all k xs (set (key x) x d), hit (key x) k x d e, e) refl
    | inr e ↦ rw (get-set_all k xs (set (key x) x d), get-set_other k (key x) x d e, e) refl
  ]
    where
      hit : (i k : ℕ) (x : A) (d : List (ℕ × A)) → (i == k) ≡ true → get k (set i x d) ≡ some x
      hit i k x [] h = rw h refl
      hit i k x ((j, b) ∷ d) h = ground (arith, hit i k x d h)

  -- No value has the key.
  pub last_of-absent :
      (k : ℕ) (xs : List A) (before : Option A)
      → All (λ x. (key x == k) ≡ false) xs
      → last_of k xs before ≡ before
  last_of-absent k [] before h = refl
  last_of-absent k (x ∷ xs) before h = rw h.0 (last_of-absent k xs before h.1)

  -- Each value stands under its own key, and no key twice.
  abbrev pub IsKeyed : List (ℕ × A) → Type 0
  IsKeyed [] = Unit {0}
  IsKeyed ((i, a) ∷ d) = (key a ≡ i) × (get i d ≡ none) × IsKeyed d

  set-IsKeyed : (a : A) (d : List (ℕ × A)) → IsKeyed d → IsKeyed (set (key a) a d)
  set-IsKeyed a [] h = (refl, refl, tt)
  set-IsKeyed a ((i, b) ∷ d) h = elim (Bool-cases (i == key a)) [
    | inl e ↦ rw e (ground arith, h.1, h.2)
    | inr e ↦ rw e (h.0, get-set_other i (key a) a d (flip i (key a) e) ∙ h.1, set-IsKeyed a d h.2)
  ]
    where
      flip : (i k : ℕ) → (i == k) ≡ false → (k == i) ≡ false
      flip i k h = ground arith

  pub set_all-IsKeyed : (xs : List A) (d : List (ℕ × A)) → IsKeyed d → IsKeyed (set_all xs d)
  set_all-IsKeyed [] d h = h
  set_all-IsKeyed (x ∷ xs) d h = set_all-IsKeyed xs (set (key x) x d) (set-IsKeyed x d h)
