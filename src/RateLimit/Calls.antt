-- ===== src/RateLimit/Calls.antt =====
-- One call of the shared limiter, and the sets of the keys after it.
use text.Mathlib.TextLemmas.{append_cancel_left}
use mathlib.Core.List.{append-nil}
use Prim.Native.String
use lineagelens.Prelude.{
  ℕ, ◌+◌, ◌-◌, ◌*◌, ◌≤◌, max, String, ◌≡◌, refl, ap, sym, ◌∙◌, true, false, List, [], ◌∷◌, ◌++◌,
  arith, eq_iff, ltb, str_eq, if◌then◌else◌, length, filter, All, Bool-cases, inl, inr,
}
use lineagelens.RateLimit.{second}
use lineagelens.RateLimit.Prune.{is_live}
use lineagelens.RateLimit.Window.{added}
use lineagelens.RateLimit.Tracks.{count_in}
use lineagelens.RateLimit.Bounds.{count_in-eq-live}
use lineagelens.RateLimit.Shared.{SortedSets, Documented, acheck}
use lineagelens.RateLimit.Follows.{
  Follows, filter-above, found_at, found_at-Follows, filter-Follows, added-Follows,
}
use lineagelens.RateLimit.Sets.{
  Call, member_of, stored, pruned, grown, acheck-allowed, acheck-refused, acheck-admitted,
}

str_eq-append : (p k j : String) → str_eq (String.◌++◌ p k) (String.◌++◌ p j) ≡ str_eq k j
str_eq-append p k j = elim (Bool-cases (str_eq k j)) [
  | inl same ↦
      rw ((eq_iff k j).0 same)
        ((eq_iff (String.◌++◌ p j) (String.◌++◌ p j)).1 refl ∙ sym ((eq_iff j j).1 refl))
  | inr other ↦ elim (Bool-cases (str_eq (String.◌++◌ p k) (String.◌++◌ p j))) [
    | inl same ↦
        (eq_iff (String.◌++◌ p k) (String.◌++◌ p j)).1
          ((eq_iff (String.◌++◌ p k) (String.◌++◌ p j)).0 same)
        ∙ sym (
            (eq_iff k j).1
              (append_cancel_left p k j ((eq_iff (String.◌++◌ p k) (String.◌++◌ p j)).0 same)))
    | inr apart ↦ apart ∙ sym other
  ]
]

module _ {S : Type 0} (r : SortedSets S) (doc : Documented S r) (key_prefix : String)
    (text_of : ℕ → String) (limit window : ℕ) where
  -- The set of the key stands for the times at which its calls were admitted.
  abbrev pub Stands : String → ℕ → List ℕ → S → Type 0
  Stands key clock past s =
      Follows (max 1 window) clock past (doc.scores (stored key_prefix key) s)
        (doc.deadline (stored key_prefix key) s)

  abbrev found : Call → String → S → List ℕ
  found c key s =
      found_at c.now (doc.deadline (stored key_prefix key) s) (doc.scores (stored key_prefix key) s)

  scores-pruned :
      (c : Call) (key : String) (s : S)
      → max 1 window * second ≤ c.now
      → doc.scores (stored key_prefix key) (pruned r key_prefix window c s) ≡ (
          if str_eq c.key key
          then filter (is_live c.now (max 1 window)) (found c key s)
          else found c key s)
  scores-pruned c key s h =
      let at = r.at c.now s in
      let read = doc.scores-at c.now (stored key_prefix key) s in
      doc.scores-zrem (stored key_prefix c.key) (stored key_prefix key)
        (c.now - max 1 window * second) at
      ∙ rw
          (
            str_eq-append key_prefix c.key key,
            read,
            filter-above (max 1 window) c.now (found c key s) h,
          )
          refl

  deadline-pruned :
      (c : Call) (key : String) (s : S)
      → doc.deadline (stored key_prefix key) (pruned r key_prefix window c s)
        ≡ doc.deadline (stored key_prefix key) s
  deadline-pruned c key s =
      doc.deadline-zrem (stored key_prefix c.key) (stored key_prefix key)
        (c.now - max 1 window * second) (r.at c.now s)
      ∙ doc.deadline-at c.now (stored key_prefix key) s

  Stands-pruned :
      (c : Call) (key : String) (clock : ℕ) (past : List ℕ) (s : S)
      → Stands key clock past s
      → clock ≤ c.now
      → max 1 window * second ≤ c.now
      → Stands key c.now past (pruned r key_prefix window c s)
  Stands-pruned c key clock past s f l h =
      let here =
        found_at-Follows (max 1 window) clock c.now past (doc.scores (stored key_prefix key) s)
          (doc.deadline (stored key_prefix key) s) f l in
      rw (scores-pruned c key s h, deadline-pruned c key s)
        (elim (Bool-cases (str_eq c.key key)) [
          | inl same ↦ rw same (
              filter-Follows (max 1 window) c.now past (found c key s)
                (doc.deadline (stored key_prefix key) s) here)
          | inr other ↦ rw other here
        ])

  -- What the script counts for the key is what the log counts.
  length-pruned :
      (c : Call) (clock : ℕ) (past : List ℕ) (s : S)
      → Stands c.key clock past s
      → clock ≤ c.now
      → max 1 window * second ≤ c.now
      → length (doc.scores (stored key_prefix c.key) (pruned r key_prefix window c s))
        ≡ count_in c.now (max 1 window) past
  length-pruned c clock past s f l h =
      let here =
        found_at-Follows (max 1 window) clock c.now past (doc.scores (stored key_prefix c.key) s)
          (doc.deadline (stored key_prefix c.key) s) f l in
      ap length (
        scores-pruned c c.key s h
        ∙ rw ((eq_iff c.key c.key).1 refl) (here.live c.now (omega arith)))
      ∙ sym (count_in-eq-live c.now (max 1 window) past here.past_clock)

  Stands-grown :
      (c : Call) (key : String) (past : List ℕ) (s : S)
      → ((j : String) → doc.has j (member_of text_of c) (pruned r key_prefix window c s) ≡ false)
      → Stands key c.now past (pruned r key_prefix window c s)
      → Stands key c.now
          (past ++ added true c.key key c.now)
          (grown r key_prefix text_of window c s)
  Stands-grown c key past s fresh f =
      let k = stored key_prefix c.key in
      let m = member_of text_of c in
      let after = r.zadd k c.now m (pruned r key_prefix window c s) in
      let read = doc.scores-expire k (stored key_prefix key) c.now (max 1 window + 1) after in
      let goes = doc.deadline-expire k (stored key_prefix key) c.now (max 1 window + 1) after in
      let apart = str_eq-append key_prefix c.key key in
      elim (Bool-cases (str_eq c.key key)) [
        | inr other ↦
            let old =
              doc.scores-zadd_other k (stored key_prefix key) m c.now
                (pruned r key_prefix window c s) (apart ∙ other) in
            let stays =
              doc.deadline-zadd_other k (stored key_prefix key) m c.now
                (pruned r key_prefix window c s) (apart ∙ other) in
            rw (read, goes, apart, other, old, stays, append-nil past) f
        | inl same ↦
            let e : c.key ≡ key = (eq_iff c.key key).0 same in
            let own =
              ap (λ x. doc.scores (stored key_prefix x) (pruned r key_prefix window c s)) e in
            let ts_clock : All (λ t. t ≤ c.now) (doc.scores k (pruned r key_prefix window c s)) =
              rw own f.ts_clock in
            let new : doc.scores (stored key_prefix key) after
                ≡ doc.scores (stored key_prefix key) (pruned r key_prefix window c s)
                  ++ c.now ∷ [] =
              ap (λ x. doc.scores (stored key_prefix x) after) (sym e)
              ∙ doc.scores-zadd k m c.now (pruned r key_prefix window c s) (fresh k) ts_clock
              ∙ ap (λ ts. ts ++ c.now ∷ []) own in
            rw (read, goes, apart, same, new)
              (added-Follows (max 1 window) c.now past
                (doc.scores (stored key_prefix key) (pruned r key_prefix window c s))
                (doc.deadline (stored key_prefix key) (pruned r key_prefix window c s)) f)
      ]

  pub Stands-acheck :
      (c : Call) (key : String) (clock : ℕ) (past : List ℕ) (s : S)
      → ((j : String) → doc.has j (member_of text_of c) (pruned r key_prefix window c s) ≡ false)
      → Stands key clock past s
      → clock ≤ c.now
      → max 1 window * second ≤ c.now
      → let (d, s') = acheck r key_prefix text_of c.key limit window c.now c.token s in
        Stands key c.now (past ++ added d.allowed c.key key c.now) s'
  Stands-acheck c key clock past s fresh f l h =
      let here = Stands-pruned c key clock past s f l h in
      let (d, s') = acheck r key_prefix text_of c.key limit window c.now c.token s in
      elim (Bool-cases d.allowed) [
        | inl admitted ↦
            rw (admitted, acheck-admitted r doc key_prefix text_of limit window c s admitted)
              (Stands-grown c key past s fresh here)
        | inr refused ↦
            rw
              (
                refused,
                acheck-refused r doc key_prefix text_of limit window c s refused,
                append-nil past,
              )
              here
      ]

  pub same_decision :
      (c : Call) (key : String) (clock : ℕ) (past : List ℕ) (s : S)
      → Stands key clock past s
      → clock ≤ c.now
      → max 1 window * second ≤ c.now
      → added
          (acheck r key_prefix text_of c.key limit window c.now c.token s).0.allowed
          c.key
          key
          c.now
        ≡ added (ltb (count_in c.now (max 1 window) past) (max 1 limit)) c.key key c.now
  same_decision c key clock past s f l h = elim (Bool-cases (str_eq c.key key)) [
    | inr other ↦ ground (arith, other)
    | inl same ↦
        let e : c.key ≡ key = (eq_iff c.key key).0 same in
        let scores = ap (λ x. doc.scores (stored key_prefix x) s) e in
        let goes = ap (λ x. doc.deadline (stored key_prefix x) s) e in
        let own : Stands c.key clock past s = rw (scores, goes) f in
        ap (λ b. added b c.key key c.now)
          (acheck-allowed r doc key_prefix text_of limit window c s
            ∙ ap (λ n. ltb n (max 1 limit)) (length-pruned c clock past s own l h))
  ]

  pub Stands-empty :
      (key : String) (start : ℕ) (s : S)
      → ((k : String) → doc.scores k s ≡ [])
      → Stands key start [] s
  Stands-empty key start s empty =
      rw (empty (stored key_prefix key))
        record { live = λ now h. refl; ts_clock = tt; past_clock = tt; expiring = tt }
