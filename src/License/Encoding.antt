-- ===== src/License/Encoding.antt =====
-- The base64url texts of a licence key, and the dot between them.
use lineagelens.Prelude.{
  ℕ, zero, suc, ◌+◌, ◌-◌, ◌%◌, ◌<◌, ◌≡◌, refl, sym, ap, ◌∙◌, Bool, true, ◌&&◌, ◌||◌, some, [], ◌∷◌,
  ◌++◌, arith, leb, ◌==◌, length, All,
}
use lineagelens.License.{
  Text, replicate, Licensing, rstrip_pad, count_dots, split_dot, b64url_encode, b64url_decode,
}

-- Letters, digits, `-` and `_`.
abbrev pub is_urlsafe : ℕ → Bool
is_urlsafe c =
    (leb b'A' c && leb c b'Z')
    || (leb b'a' c && leb c b'z')
    || (leb b'0' c && leb c b'9')
    || c == b'-'
    || c == b'_'

-- What `base64` documents of the encoding of one byte string: letters of its alphabet, then padding
-- up to a multiple of four, and decoding gives the bytes back.
pub record IsEncoded (l : Licensing) (raw : Text) : Type 0 where
  pub body : Text
  pub padding : ℕ
  pub written : l.urlsafe_b64encode raw ≡ body ++ replicate padding b'='
  pub alphabet : All (λ c. is_urlsafe c ≡ true) body
  pub short : padding < 4
  pub aligned : (length body + padding) % 4 ≡ 0
  pub decodes : l.urlsafe_b64decode (l.urlsafe_b64encode raw) ≡ some raw

rstrip_pad-replicate : (k : ℕ) → rstrip_pad (replicate k b'=') ≡ []
unfolding rstrip_pad
rstrip_pad-replicate zero = refl
rstrip_pad-replicate (suc k) = rw (rstrip_pad-replicate k)

rstrip_pad-append :
    (body : Text) (k : ℕ)
    → All (λ c. is_urlsafe c ≡ true) body
    → rstrip_pad (body ++ replicate k b'=') ≡ body
unfolding rstrip_pad
rstrip_pad-append [] k h = rstrip_pad-replicate k
rstrip_pad-append (c ∷ body) k h = ground (arith, rstrip_pad-append body k h.1, h.0)

pub count_dots-body :
    (body rest : Text)
    → All (λ c. is_urlsafe c ≡ true) body
    → count_dots (body ++ rest) ≡ count_dots rest
unfolding count_dots
count_dots-body [] rest h = refl
count_dots-body (c ∷ body) rest h = ground (arith, count_dots-body body rest h.1, h.0)

pub split_dot-body :
    (body rest : Text)
    → All (λ c. is_urlsafe c ≡ true) body
    → split_dot (body ++ b'.' ∷ rest) ≡ (body, rest)
unfolding split_dot
split_dot-body [] rest h = refl
split_dot-body (c ∷ body) rest h = ground (arith, split_dot-body body rest h.1, h.0)

module _ (l : Licensing) (raw : Text) (e : IsEncoded l raw) where
  pub b64url_encode-body : b64url_encode l raw ≡ e.body
  unfolding b64url_encode
  b64url_encode-body = ap rstrip_pad e.written ∙ rstrip_pad-append e.body e.padding e.alphabet

  -- The padding that was cut off is put back.
  pub b64url_decode-encode : b64url_decode l (b64url_encode l raw) ≡ some raw
  b64url_decode-encode =
      let same : (4 - length e.body % 4) % 4 ≡ e.padding = omega (arith, e.short, e.aligned) in
      let whole = ap (λ k. e.body ++ replicate k b'=') same ∙ sym e.written in
      ap (b64url_decode l) b64url_encode-body
      ∙ unfold b64url_decode in (ap l.urlsafe_b64decode whole ∙ e.decodes)
