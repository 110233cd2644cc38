-- ===== src/RateLimit/Sets.antt =====
-- The store of the shared limiter after one call, and the members that it holds.
use Prim.Native.String
use lineagelens.Prelude.{
  ℕ, ◌+◌, ◌-◌, ◌*◌, max, String, ◌≡◌, true, false, List, [], ◌∷◌, arith, ltb, str_eq, length, All,
  Bool-cases, inl, inr,
}
use lineagelens.RateLimit.{second}
use lineagelens.RateLimit.Shared.{SortedSets, Documented, sliding_window, decision_of, acheck}

-- A request with the random token that its call draws.
pub record Call : Type 0 where
  pub key : String
  pub now : ℕ
  pub token : String

abbrev pub member_of : (ℕ → String) → Call → String
member_of text_of c = String.◌++◌ (text_of c.now) (String.◌++◌ ":" c.token)

abbrev pub stored : String → String → String
stored key_prefix key = String.◌++◌ key_prefix key

-- No key has the member of one of the calls.
abbrev pub IsFresh :
    {S : Type 0} {r : SortedSets S} → Documented S r → (ℕ → String) → List Call → S → Type 0
IsFresh doc text_of calls s =
    All (λ c. (j : String) → doc.has j (member_of text_of c) s ≡ false) calls

-- The set of a key at a clock reading, without the times that have left the window.
abbrev pub pruned : {S : Type 0} → SortedSets S → String → ℕ → Call → S → S
pruned r key_prefix window c s =
    r.zremrangebyscore (stored key_prefix c.key) (c.now - max 1 window * second) (r.at c.now s)

-- The pruned set with the new call.
abbrev pub grown : {S : Type 0} → SortedSets S → String → (ℕ → String) → ℕ → Call → S → S
grown r key_prefix text_of window c s =
    r.expire (stored key_prefix c.key) c.now (max 1 window + 1) (
      r.zadd (stored key_prefix c.key) c.now (member_of text_of c) (pruned r key_prefix window c s))

module _ {S : Type 0} (r : SortedSets S) (doc : Documented S r) (key_prefix : String)
    (text_of : ℕ → String) (limit window : ℕ) where
  pub acheck-allowed :
      (c : Call) (s : S)
      → (acheck r key_prefix text_of c.key limit window c.now c.token s).0.allowed
        ≡ ltb
            (length (doc.scores (stored key_prefix c.key) (pruned r key_prefix window c s)))
            (max 1 limit)
  unfolding acheck sliding_window decision_of
  acheck-allowed c s =
      ground (arith, doc.zcard-length (stored key_prefix c.key) (pruned r key_prefix window c s))

  pub acheck-refused :
      (c : Call) (s : S)
      → (acheck r key_prefix text_of c.key limit window c.now c.token s).0.allowed ≡ false
      → (acheck r key_prefix text_of c.key limit window c.now c.token s).1
        ≡ pruned r key_prefix window c s
  unfolding acheck sliding_window decision_of
  acheck-refused c s e = ground arith

  pub acheck-admitted :
      (c : Call) (s : S)
      → (acheck r key_prefix text_of c.key limit window c.now c.token s).0.allowed ≡ true
      → (acheck r key_prefix text_of c.key limit window c.now c.token s).1
        ≡ grown r key_prefix text_of window c s
  unfolding acheck sliding_window decision_of
  acheck-admitted c s e = ground arith

  pub absent-pruned :
      (c : Call) (m : String) (s : S)
      → ((j : String) → doc.has j m s ≡ false)
      → (j : String) → doc.has j m (pruned r key_prefix window c s) ≡ false
  absent-pruned c m s f j =
      doc.has-zrem (stored key_prefix c.key) j m (c.now - max 1 window * second) (r.at c.now s)
        (doc.has-at c.now j m s (f j))

  absent_later :
      (c : Call) (calls : List Call) (s : S)
      → All (λ d. str_eq (member_of text_of c) (member_of text_of d) ≡ false) calls
      → IsFresh doc text_of calls s
      → IsFresh doc text_of calls (pruned r key_prefix window c s)
        × IsFresh doc text_of calls (grown r key_prefix text_of window c s)
  absent_later c [] s h f = (tt, tt)
  absent_later c (d ∷ calls) s h f =
      let rest = absent_later c calls s h.1 f.1 in
      let m = member_of text_of d in
      let k = stored key_prefix c.key in
      let kept = absent-pruned c m s f.0 in
      (
        (kept, rest.0),
        (
          λ j.
              doc.has-expire k j m c.now (max 1 window + 1)
                (r.zadd k c.now (member_of text_of c) (pruned r key_prefix window c s))
                (doc.has-zadd k j (member_of text_of c) m c.now (pruned r key_prefix window c s) h.0
                  (kept j)),
          rest.1,
        ),
      )

  pub IsFresh-acheck :
      (c : Call) (calls : List Call) (s : S)
      → All (λ d. str_eq (member_of text_of c) (member_of text_of d) ≡ false) calls
      → IsFresh doc text_of calls s
      → IsFresh doc text_of calls (acheck r key_prefix text_of c.key limit window c.now c.token s).1
  IsFresh-acheck c calls s h f =
      let both = absent_later c calls s h f in
      elim (Bool-cases (acheck r key_prefix text_of c.key limit window c.now c.token s).0.allowed) [
        | inl admitted ↦ rw (acheck-admitted c s admitted) both.1
        | inr refused ↦ rw (acheck-refused c s refused) both.0
      ]
