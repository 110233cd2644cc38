-- ===== src/RateLimit/Follows.antt =====
-- How the sorted set of a key stands for the times admitted so far.
use lineagelens.Prelude.{
  ℕ, ◌+◌, ◌-◌, ◌*◌, ◌≤◌, ◌≡◌, refl, ap, sym, ◌∙◌, Bool, List, [], ◌∷◌, ◌++◌, arith, leb,
  if◌then◌else◌, filter, filter-append, All, Bool-cases, inl, inr,
}
use lineagelens.RateLimit.{second}
use lineagelens.RateLimit.Prune.{is_live}
use lineagelens.RateLimit.Tracks.{All-mono, All-append_one}
use lineagelens.RateLimit.Shared.{is_above}

-- The scores `ts` of a key that goes at `deadline` have the live times of `past`, now and later.
pub record Follows (window clock : ℕ) (past ts : List ℕ) (deadline : ℕ) : Type 0 where
  pub live :
      (now : ℕ) → clock ≤ now → filter (is_live now window) ts ≡ filter (is_live now window) past
  pub ts_clock : All (λ t. t ≤ clock) ts
  pub past_clock : All (λ t. t ≤ clock) past
  pub expiring : All (λ t. t + (window + 1) * second ≤ deadline) ts

no_live :
    (window now deadline : ℕ) (ts : List ℕ)
    → All (λ t. t + (window + 1) * second ≤ deadline) ts
    → deadline ≤ now
    → filter (is_live now window) ts ≡ []
no_live window now deadline [] h l = refl
no_live window now deadline (t ∷ ts) h l = ground (arith, no_live window now deadline ts h.1 l)

pub filter-above :
    (window now : ℕ) (ts : List ℕ)
    → window * second ≤ now
    → filter (is_above (now - window * second)) ts ≡ filter (is_live now window) ts
filter-above window now [] h = refl
filter-above window now (t ∷ ts) h = ground (arith, filter-above window now ts h)

filter_later :
    (window now later : ℕ) (ts : List ℕ)
    → now ≤ later
    → filter (is_live later window) (filter (is_live now window) ts)
      ≡ filter (is_live later window) ts
filter_later window now later [] h = refl
filter_later window now later (t ∷ ts) h = ground (arith, filter_later window now later ts h)

All-filter : (P : ℕ → Type 0) (p : ℕ → Bool) (ts : List ℕ) → All P ts → All P (filter p ts)
All-filter P p [] h = tt
All-filter P p (t ∷ ts) h = elim (Bool-cases (p t)) [
  | inl kept ↦ rw kept (h.0, All-filter P p ts h.1)
  | inr gone ↦ rw gone (All-filter P p ts h.1)
]

-- The scores that the server finds at a clock reading.
abbrev pub found_at : ℕ → ℕ → List ℕ → List ℕ
found_at now deadline ts = if leb deadline now then [] else ts

module _ (window clock now : ℕ) (past ts : List ℕ) (deadline : ℕ)
    (f : Follows window clock past ts deadline) (h : clock ≤ now) where
  pub live-found_at :
      (later : ℕ)
      → now ≤ later
      → filter (is_live later window) (found_at now deadline ts)
        ≡ filter (is_live later window) past
  live-found_at later l = elim (Bool-cases (leb deadline now)) [
    | inl gone ↦ rw gone (
        sym (no_live window later deadline ts f.expiring (ground arith))
        ∙ f.live later (omega arith))
    | inr here ↦ rw here (f.live later (omega arith))
  ]

  pub found_at-Follows : Follows window now past (found_at now deadline ts) deadline
  found_at-Follows = record {
    live = live-found_at;
    ts_clock = elim (Bool-cases (leb deadline now)) [
      | inl gone ↦ rw gone tt
      | inr here ↦ rw here (All-mono clock now ts f.ts_clock h)
    ];
    past_clock = All-mono clock now past f.past_clock h;
    expiring = elim (Bool-cases (leb deadline now)) [
      | inl gone ↦ rw gone tt
      | inr here ↦ rw here f.expiring
    ];
  }

pub filter-Follows :
    (window now : ℕ) (past ts : List ℕ) (deadline : ℕ)
    → Follows window now past ts deadline
    → Follows window now past (filter (is_live now window) ts) deadline
filter-Follows window now past ts deadline f = record {
  live = λ later l. filter_later window now later ts l ∙ f.live later l;
  ts_clock = All-filter _ (is_live now window) ts f.ts_clock;
  past_clock = f.past_clock;
  expiring = All-filter _ (is_live now window) ts f.expiring;
}

expires_later :
    (window now : ℕ) (ts : List ℕ)
    → All (λ t. t ≤ now) ts
    → All (λ t. t + (window + 1) * second ≤ now + (window + 1) * second) (ts ++ now ∷ [])
expires_later window now [] h = (omega arith, tt)
expires_later window now (t ∷ ts) h = (omega arith, expires_later window now ts h.1)

pub added-Follows :
    (window now : ℕ) (past ts : List ℕ) (deadline : ℕ)
    → Follows window now past ts deadline
    → Follows window now (past ++ now ∷ []) (ts ++ now ∷ []) (now + (window + 1) * second)
added-Follows window now past ts deadline f = record {
  live = λ later l.
      filter-append (is_live later window) ts (now ∷ [])
      ∙ ap (λ x. x ++ filter (is_live later window) (now ∷ [])) (f.live later l)
      ∙ sym (filter-append (is_live later window) past (now ∷ []));
  ts_clock = All-append_one now now ts f.ts_clock (omega arith);
  past_clock = All-append_one now now past f.past_clock (omega arith);
  expiring = expires_later window now ts f.ts_clock;
}
