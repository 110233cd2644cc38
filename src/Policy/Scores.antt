-- ===== src/Policy/Scores.antt =====
-- How a score stands to a threshold.
use lineagelens.Prelude.{
  String, ◌≡◌, ◌⊎◌, ◌↔◌, refl, ap, true, false, ◌&&◌, str_eq, eq_iff, arith, Bool-cases, inl, inr,
}
use lineagelens.Policy.{ℤ, pos, leb_int, compare_risk}

-- How the score stands to the threshold.
abbrev pub Compares : String → ℤ → ℤ → Type 0
Compares operator risk threshold =
    ((operator ≡ "gte") × (leb_int threshold risk ≡ true))
    ⊎ (((operator ≡ "gt") × (leb_int risk threshold ≡ false))
        ⊎ (((operator ≡ "lte") × (leb_int risk threshold ≡ true))
            ⊎ (((operator ≡ "lt") × (leb_int threshold risk ≡ false))
                ⊎ ((operator ≡ "eq") × (risk ≡ threshold)))))

leb_int_antisym : (a b : ℤ) → (leb_int a b && leb_int b a) ≡ true → a ≡ b
leb_int_antisym (pos a) (pos b) h = let e : a ≡ b = ground (arith, h) in ap pos e
leb_int_antisym (pos a) (ℤ.negsuc b) h = absurd (ground (arith, h))
leb_int_antisym (ℤ.negsuc a) (pos b) h = absurd (ground (arith, h))
leb_int_antisym (ℤ.negsuc a) (ℤ.negsuc b) h = let e : a ≡ b = ground (arith, h) in ap ℤ.negsuc e

leb_int_refl : (a : ℤ) → leb_int a a ≡ true
leb_int_refl (pos a) = ground arith
leb_int_refl (ℤ.negsuc a) = ground arith

pub compare_risk_iff :
    (operator : String) (risk threshold : ℤ)
    → (compare_risk operator risk threshold ≡ true) ↔ Compares operator risk threshold
unfolding compare_risk
compare_risk_iff operator risk threshold = (there, back)
  where
    there : compare_risk operator risk threshold ≡ true → Compares operator risk threshold
    there h = elim (Bool-cases (str_eq operator "gte")) [
      | inl e ↦ inl ((eq_iff operator "gte").0 e, rw e at h)
      | inr e ↦ inr (elim (Bool-cases (str_eq operator "gt")) [
        | inl f ↦ inl ((eq_iff operator "gt").0 f, ground (arith, rw (e, f) at h))
        | inr f ↦ inr (elim (Bool-cases (str_eq operator "lte")) [
          | inl g ↦ inl ((eq_iff operator "lte").0 g, rw (e, f, g) at h)
          | inr g ↦ inr (elim (Bool-cases (str_eq operator "lt")) [
            | inl k ↦ inl ((eq_iff operator "lt").0 k, ground (arith, rw (e, f, g, k) at h))
            | inr k ↦ inr (elim (Bool-cases (str_eq operator "eq")) [
              | inl l ↦ (
                (eq_iff operator "eq").0 l,
                leb_int_antisym risk threshold (rw (e, f, g, k, l) at h),
              )
              | inr l ↦ absurd (ground (arith, rw (e, f, g, k, l) at h))
            ])
          ])
        ])
      ])
    ]

    back : Compares operator risk threshold → compare_risk operator risk threshold ≡ true
    back (inl (e, h)) = rw e h
    back (inr (inl (e, h))) = rw (e, h) refl
    back (inr (inr (inl (e, h)))) = rw e h
    back (inr (inr (inr (inl (e, h))))) = rw (e, h) refl
    back (inr (inr (inr (inr (e, h))))) = rw (e, h, leb_int_refl threshold) refl
