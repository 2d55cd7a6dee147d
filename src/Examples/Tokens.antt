-- ===== src/Examples/Tokens.antt =====
-- A token library that can be run: a token is its payload, written field by field.
use tenant_intelligence_plat.Base.{
  ◌+◌, ◌*◌, ◌/◌, ◌%◌, ℕ, zero, suc, ◌≤◌, ◌<◌, ◌≡◌, refl, sym, ap, ◌∙◌, true, ◌&&◌, Option, none,
  some, inl, inr, str_eq, if◌then◌else◌, ltb, leb, Bool-cases, arith,
}
use Prim.Native.String.{String, [], ◌∷◌}
use Prim.Native.Char.{Char}
use tenant_intelligence_plat.Identity.Models.{TextOps}
use tenant_intelligence_plat.Auth.Security.{Payload, Crypto, IsCrypto, Settings}

abbrev pub put_number : ℕ → String → String
put_number zero rest = "b" ∷ rest
put_number (suc n) rest = "a" ∷ put_number n rest

abbrev pub put_text : String → String → String
put_text [] rest = "b" ∷ rest
put_text (c ∷ s) rest = "a" ∷ c ∷ put_text s rest

abbrev pub next_number : Option (ℕ × String) → Option (ℕ × String)
next_number none = none
next_number (some (n, rest)) = some (suc n, rest)

abbrev pub take_number : String → Option (ℕ × String)
take_number [] = none
take_number (c ∷ s) = if str_eq (c ∷ []) "a" then next_number (take_number s) else some (0, s)

abbrev pub next_text : Char → Option (String × String) → Option (String × String)
next_text c none = none
next_text c (some (s, rest)) = some (c ∷ s, rest)

abbrev pub take_text : String → Option (String × String)
take_text [] = none
take_text (c ∷ []) = some ([], [])
take_text (c ∷ d ∷ s) = if str_eq (c ∷ []) "a" then next_text d (take_text s) else some ([], d ∷ s)

pub take_number-put : (n : ℕ) (rest : String) → take_number (put_number n rest) ≡ some (n, rest)
take_number-put zero rest = refl
take_number-put (suc n) rest = rw (take_number-put n rest) refl

take_text-put : (s rest : String) → take_text (put_text s rest) ≡ some (s, rest)
take_text-put [] [] = refl
take_text-put [] (c ∷ rest) = refl
take_text-put (c ∷ s) rest = rw (take_text-put s rest) refl

-- an instant by its quotient and its remainder, since numbers are written in unary
abbrev pub put_instant : ℕ → String → String
put_instant n rest = put_number (n / 300) (put_number (n % 300) rest)

abbrev pub joined : ℕ → Option (ℕ × String) → Option (ℕ × String)
joined q none = none
joined q (some (r, rest)) = some (300 * q + r, rest)

abbrev pub take_low : Option (ℕ × String) → Option (ℕ × String)
take_low none = none
take_low (some (q, rest)) = joined q (take_number rest)

abbrev pub take_instant : String → Option (ℕ × String)
take_instant s = take_low (take_number s)

take_instant-put : (n : ℕ) (rest : String) → take_instant (put_instant n rest) ≡ some (n, rest)
take_instant-put n rest =
    rw (take_number-put (n / 300) (put_number (n % 300) rest), take_number-put (n % 300) rest)
      (ap (λ m. some (m, rest)) (whole n))
  where
    whole : (n : ℕ) → 300 * (n / 300) + n % 300 ≡ n
    whole n = omega arith

abbrev with_rest : {A B : Type 0} → Option (A × String) → (A → String → Option B) → Option B
with_rest none k = none
with_rest (some (a, rest)) k = k a rest

abbrev encode_payload : Payload → String
encode_payload p = put_text p.sub (
    put_text p.tenant_id
      (put_text p.token_type (put_text p.jti (put_instant p.iat (put_instant p.exp [])))))

abbrev read_payload : String → Option Payload
read_payload token = with_rest (take_text token) λ sub r1. with_rest (take_text r1) λ tenant r2.
    with_rest (take_text r2) λ kind r3. with_rest (take_text r3) λ jti r4.
      with_rest (take_instant r4) λ iat r5. with_rest (take_instant r5) λ exp r6. some (record {
        sub = sub;
        tenant_id = tenant;
        token_type = kind;
        jti = jti;
        iat = iat;
        exp = exp;
      })

read_payload-encode : (p : Payload) → read_payload (encode_payload p) ≡ some p
read_payload-encode p =
    rw
      (
        take_text-put p.sub _,
        take_text-put p.tenant_id _,
        take_text-put p.token_type _,
        take_text-put p.jti _,
        take_instant-put p.iat _,
        take_instant-put p.exp _,
      )
      refl

abbrev in_time : ℕ → Option Payload → Option Payload
in_time now none = none
in_time now (some p) = if leb p.iat now && ltb now p.exp then some p else none

abbrev first_of : Option (ℕ × String) → Option ℕ
first_of none = none
first_of (some (n, rest)) = some n

abbrev pub crypto : Crypto
crypto = record {
  encode = encode_payload;
  decode = λ now token. in_time now (read_payload token);
  show_uuid = λ id. put_number id [];
  parse_uuid = λ s. first_of (take_number s);
  sha256 = λ s. s;
  verify_hash = λ password hash. some (str_eq password hash);
}

in_time-some :
    (now : ℕ) (o : Option Payload) (p : Payload)
    → in_time now o ≡ some p
    → (o ≡ some p) × (now < p.exp)
in_time-some now none p h = absurd (ground arith)
in_time-some now (some q) p h = elim (Bool-cases (leb q.iat now && ltb now q.exp)) [
  | inr late ↦ absurd (ground (arith, rw late at h))
  | inl good ↦
      let e : some q ≡ some p = rw good at h in
      (e, rw (some_injective q p e) at (late_enough q good))
]
  where
    some_injective : (a b : Payload) → some a ≡ some b → a ≡ b
    some_injective a b e = cc

    late_enough : (q : Payload) → (leb q.iat now && ltb now q.exp) ≡ true → now < q.exp
    late_enough q good = ground (arith, good)

pub crypto-IsCrypto : IsCrypto crypto
crypto-IsCrypto = record {
  decode-encode = λ now p h k. rw (read_payload-encode p) (within now p h k);
  decode_encoded = λ now p q h.
      let (e, late) = in_time-some now (read_payload (encode_payload p)) q h in
      let same = payload_injective q p (sym e ∙ read_payload-encode p) in (same, rw same at late);
  decode_same = λ now later token p q h k. payload_injective p q (
      sym (in_time-some now (read_payload token) p h).0
      ∙ (in_time-some later (read_payload token) q k).0);
  parse-show = λ id. rw (take_number-put id []) refl;
}
  where
    payload_injective : (a b : Payload) → some a ≡ some b → a ≡ b
    payload_injective a b e = cc

    within :
        (now : ℕ) (p : Payload)
        → p.iat ≤ now
        → now < p.exp
        → (if leb p.iat now && ltb now p.exp then some p else none) ≡ some p
    within now p h k = ground (arith, h, k)

abbrev pub text_ops : TextOps
text_ops = record { strip = λ s. s; casefold = λ s. s; lower = λ s. s; trim = λ s. s }

abbrev pub settings : Settings
settings = record { jwt_access_token_minutes = 15; jwt_refresh_token_days = 1 }
