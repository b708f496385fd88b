-- ===== src/Reports/Template/Fuel.antt =====
-- The renderer's units are enough: one for each token that is left
-- (backend/app/reports/template.py).
use call_audit_supervisor.Common.{
  ℕ, zero, suc, ◌≤◌, ◌≡◌, refl, ap, ◌∙◌, fun_ext, inl, inr, Option, none, some, List, [], ◌∷◌,
  length, if◌then◌else◌, Bool-cases, arith,
}
use call_audit_supervisor.Common.Codes.{Text}
use call_audit_supervisor.Judge.Schema.{Json}
use call_audit_supervisor.Reports.Template.{
  Token, text, var, raw, section, inverted, close, lookup, depth_after, skip, Printed, before,
  followed_by, section_of, inverted_of, is_stop, raw_text, escaped, render_block, render_tokens,
}
use call_audit_supervisor.Reports.Template.Blocks.{
  Closed, section_of-IsGood, inverted_of-IsGood, section-IsGood, inverted-IsGood,
}

-- At most so many tokens are left.
abbrev IsWithin : ℕ → Printed → Type 0
IsWithin k (out, ts) = length ts ≤ k

length-skip_le : (name : Text) (d : ℕ) (ts : List Token) → length (skip name d ts) ≤ length ts
length-skip_le name zero ts = omega arith
length-skip_le name (suc d) [] = omega arith
length-skip_le name (suc d) (t ∷ ts) =
    omega (arith, length-skip_le name (depth_after name t (suc d)) ts)

module _ (k : ℕ) where
  abbrev IsLeft : List Token → Type 0
  IsLeft ts = length ts ≤ k

  closed : Closed (IsWithin k) IsLeft
  closed = record {
    stays = λ ts h. h;
    leaves = λ p h. h;
    skips = λ name ts h. omega (arith, length-skip_le name 1 ts, h);
    joins = λ p q g h. h;
  }

module _ (repr : Json → Text) where
  -- A block leaves no more tokens than it was given.
  render_block-IsWithin :
      (n k : ℕ) (stack : List Json) (stop : Option Text) (ts : List Token)
      → length ts ≤ k
      → IsWithin k (render_block repr n stack stop ts)
  render_block-IsWithin zero k stack stop ts h = h
  render_block-IsWithin (suc n) k stack stop [] h = h
  render_block-IsWithin (suc n) k stack stop (text s ∷ ts) h =
      render_block-IsWithin n k stack stop ts (omega (arith, h))
  render_block-IsWithin (suc n) k stack stop (var x ∷ ts) h =
      render_block-IsWithin n k stack stop ts (omega (arith, h))
  render_block-IsWithin (suc n) k stack stop (raw x ∷ ts) h =
      render_block-IsWithin n k stack stop ts (omega (arith, h))
  render_block-IsWithin (suc n) k stack stop (section x ∷ ts) h =
      section-IsGood (IsWithin k) (IsLeft k) (closed k) (render_block repr n stack stop)
        (render_block-IsWithin n k stack stop) x ts (lookup x stack) (omega (arith, h))
        (λ v. render_block repr n (v ∷ stack) (some x) ts)
        (λ v. render_block-IsWithin n k (v ∷ stack) (some x) ts (omega (arith, h)))
  render_block-IsWithin (suc n) k stack stop (inverted x ∷ ts) h =
      inverted-IsGood (IsWithin k) (IsLeft k) (closed k) (render_block repr n stack stop)
        (render_block-IsWithin n k stack stop) x ts (lookup x stack) (omega (arith, h))
        (render_block repr n stack (some x) ts)
        (render_block-IsWithin n k stack (some x) ts (omega (arith, h)))
  render_block-IsWithin (suc n) k stack stop (close x ∷ ts) h = elim (Bool-cases (is_stop stop x)) [
    | inl e ↦ rw e (omega (arith, h))
    | inr e ↦ rw e (render_block-IsWithin n k stack stop ts (omega (arith, h)))
  ]

  followed_by-cong :
      (k : ℕ) (p : Printed) (rest rest' : List Token → Printed)
      → IsWithin k p
      → ((ts : List Token) → length ts ≤ k → rest ts ≡ rest' ts)
      → followed_by p rest ≡ followed_by p rest'
  followed_by-cong k (out, ts) rest rest' h e = ap (before out) (e ts h)

  -- Any two numbers of units that reach the number of tokens give the same.
  render_block-enough :
      (n m : ℕ) (stack : List Json) (stop : Option Text) (ts : List Token)
      → length ts ≤ n
      → length ts ≤ m
      → render_block repr n stack stop ts ≡ render_block repr m stack stop ts
  render_block-enough zero zero stack stop [] g h = refl
  render_block-enough zero (suc m) stack stop [] g h = refl
  render_block-enough (suc n) zero stack stop [] g h = refl
  render_block-enough (suc n) (suc m) stack stop [] g h = refl
  render_block-enough zero m stack stop (t ∷ ts) g h = absurd (omega (arith, g))
  render_block-enough (suc n) zero stack stop (t ∷ ts) g h = absurd (omega (arith, h))
  render_block-enough (suc n) (suc m) stack stop (text s ∷ ts) g h =
      ap (before s) (render_block-enough n m stack stop ts (omega (arith, g)) (omega (arith, h)))
  render_block-enough (suc n) (suc m) stack stop (var x ∷ ts) g h =
      ap (before (escaped repr (lookup x stack)))
        (render_block-enough n m stack stop ts (omega (arith, g)) (omega (arith, h)))
  render_block-enough (suc n) (suc m) stack stop (raw x ∷ ts) g h =
      ap (before (raw_text repr (lookup x stack)))
        (render_block-enough n m stack stop ts (omega (arith, g)) (omega (arith, h)))
  render_block-enough (suc n) (suc m) stack stop (section x ∷ ts) g h =
      ap (λ b. followed_by (section_of b x ts (lookup x stack)) (render_block repr n stack stop))
        (fun_ext (λ v.
          render_block-enough n m (v ∷ stack) (some x) ts (omega (arith, g)) (omega (arith, h))))
      ∙ followed_by-cong (length ts)
          (section_of (λ v. render_block repr m (v ∷ stack) (some x) ts) x ts (lookup x stack))
          (render_block repr n stack stop) (render_block repr m stack stop)
          (section_of-IsGood (IsWithin (length ts)) (IsLeft (length ts)) (closed (length ts))
            (λ v. render_block repr m (v ∷ stack) (some x) ts)
            (λ v. render_block-IsWithin m (length ts) (v ∷ stack) (some x) ts (omega arith)) x ts
            (lookup x stack) (omega arith))
          (λ ts' l.
            render_block-enough n m stack stop ts' (omega (arith, l, g)) (omega (arith, l, h)))
  render_block-enough (suc n) (suc m) stack stop (inverted x ∷ ts) g h =
      ap (λ b. followed_by (inverted_of b x ts (lookup x stack)) (render_block repr n stack stop))
        (render_block-enough n m stack (some x) ts (omega (arith, g)) (omega (arith, h)))
      ∙ followed_by-cong (length ts)
          (inverted_of (render_block repr m stack (some x) ts) x ts (lookup x stack))
          (render_block repr n stack stop) (render_block repr m stack stop)
          (inverted_of-IsGood (IsWithin (length ts)) (IsLeft (length ts)) (closed (length ts))
            (render_block repr m stack (some x) ts) x ts (lookup x stack)
            (render_block-IsWithin m (length ts) stack (some x) ts (omega arith)) (omega arith))
          (λ ts' l.
            render_block-enough n m stack stop ts' (omega (arith, l, g)) (omega (arith, l, h)))
  render_block-enough (suc n) (suc m) stack stop (close x ∷ ts) g h =
      ap (λ r. if is_stop stop x then ([], ts) else r)
        (render_block-enough n m stack stop ts (omega (arith, g)) (omega (arith, h)))

  -- The renderer's units are enough: any number of them from the number of tokens on prints the same
  -- text.
  pub render_tokens-enough :
      (n : ℕ) (ts : List Token) (context : Json)
      → length ts ≤ n
      → (render_block repr n (context ∷ []) none ts).0 ≡ render_tokens repr ts context
  unfolding render_tokens
  render_tokens-enough n ts context h =
      ap (λ p. p.0) (render_block-enough n (length ts) (context ∷ []) none ts h (omega arith))
