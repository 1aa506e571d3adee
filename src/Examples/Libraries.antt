-- ===== src/Examples/Libraries.antt =====
-- Libraries of the examples, for those that app/core/security.py calls: a token is its key and claims,
-- written one after the other.

use asset_pilot_fastapi.Security.{
  invalid_token, expired, decoded, Decoded, IsLawful, Payload, Libraries,
}
use Prim.Native.String.{len}
use asset_pilot_fastapi.Prelude.{
  sym, leb, ◌∙◌, ◌∙◌, ◌<◌, ◌≤◌, ◌<◌, ◌≤◌, inr, inl, Bool-cases, ltb, ◌&&◌, ◌&&◌, str_eq_iff, str_eq,
  some, arith, none, Option, refl, false, zero, ap, true, ◌≡◌, ◌==◌, if◌then◌else◌, ◌≡◌, ◌==◌, suc,
  String, Bool, ℕ,
}
use Prim.Native.Char.{Char, code}

-- A text and the rest: a mark before each character, and another at the end.
abbrev put : String → String → String
put String.[] rest = String.◌∷◌ "." rest
put (String.◌∷◌ c s) rest = String.◌∷◌ "+" (String.◌∷◌ c (put s rest))

abbrev after_mark : Bool → Char → String × String → String → String × String
after_mark true c (s, rest) tail = (String.◌∷◌ c s, rest)
after_mark false c _ tail = ("", String.◌∷◌ c tail)

abbrev take_text : String → String × String
take_text String.[] = ("", "")
take_text (String.◌∷◌ m String.[]) = ("", "")
take_text (String.◌∷◌ m (String.◌∷◌ c s)) = after_mark (code m == 43) c (take_text s) s

take_text-put : (s rest : String) → take_text (put s rest) ≡ (s, rest)
take_text-put String.[] String.[] = refl
take_text-put String.[] (String.◌∷◌ c s) = refl
take_text-put (String.◌∷◌ c s) rest =
    ap (λ p. after_mark true c p (put s rest)) (take_text-put s rest)

-- A number: as many marks.
abbrev put_number : ℕ → String → String
put_number zero rest = String.◌∷◌ "." rest
put_number (suc n) rest = String.◌∷◌ "+" (put_number n rest)

abbrev take_number : String → ℕ × String
take_number String.[] = (0, "")
take_number (String.◌∷◌ m s) =
    let (n, rest) = take_number s in if code m == 43 then (suc n, rest) else (0, s)

take_number-put : (n : ℕ) (rest : String) → take_number (put_number n rest) ≡ (n, rest)
take_number-put zero rest = refl
take_number-put (suc n) rest = ap (λ (p : ℕ × String). (suc p.0, p.1)) (take_number-put n rest)

abbrev put_option : Option String → String → String
put_option none rest = String.◌∷◌ "." rest
put_option (some s) rest = String.◌∷◌ "+" (put s rest)

abbrev marked : Bool → String → String × String → Option String × String
marked true tail (s, rest) = (some s, rest)
marked false tail _ = (none, tail)

abbrev take_option : String → Option String × String
take_option String.[] = (none, "")
take_option (String.◌∷◌ m s) = marked (code m == 43) s (take_text s)

take_option-put : (o : Option String) (rest : String) → take_option (put_option o rest) ≡ (o, rest)
take_option-put none rest = refl
take_option-put (some s) rest = ap (marked true (put s rest)) (take_text-put s rest)

-- A token: its key, then its claims.
abbrev write_token : Payload → String → String
write_token p key = put key (
    put p.iss (
      put_number p.iat (
        put_number p.exp
          (put_option p.sub (put_option p.type (put_option p.role (put_option p.email "")))))))

abbrev read_token : String → String × Payload
read_token s0 =
    let (key, s1) = take_text s0 in
    let (iss, s2) = take_text s1 in
    let (iat, s3) = take_number s2 in
    let (exp, s4) = take_number s3 in
    let (sub, s5) = take_option s4 in
    let (type, s6) = take_option s5 in
    let (role, s7) = take_option s6 in
    let (email, s8) = take_option s7 in
    (
      key,
      record {
        sub = sub;
        type = type;
        iat = iat;
        exp = exp;
        iss = iss;
        role = role;
        email = email;
      },
    )

read_token-write : (p : Payload) (key : String) → read_token (write_token p key) ≡ (key, p)
read_token-write p key =
    let t7 = put_option p.email "" in
    let t6 = put_option p.role t7 in
    let t5 = put_option p.type t6 in
    let t4 = put_option p.sub t5 in
    let t3 = put_number p.exp t4 in
    let t2 = put_number p.iat t3 in
    rw (take_text-put key (put p.iss t2)) (
      rw (take_text-put p.iss t2) (
        rw (take_number-put p.iat t3) (
          rw (take_number-put p.exp t4) (
            rw (take_option-put p.sub t5) (
              rw (take_option-put p.type t6)
                (rw (take_option-put p.role t7) (rw (take_option-put p.email "") refl)))))))

abbrev judged : ℕ → String → String → String × Payload → Decoded
judged now key iss (key', p) =
    if str_eq key' key && str_eq p.iss iss
    then (if ltb now p.exp then decoded p else expired)
    else invalid_token

judged_live :
    (now : ℕ) (key : String) (p : Payload) → now < p.exp → judged now key p.iss (key, p) ≡ decoded p
judged_live now key p live =
    ground (arith, (str_eq_iff key key).1 refl, (str_eq_iff p.iss p.iss).1 refl)

judged_dead :
    (now : ℕ) (key : String) (p : Payload) → p.exp ≤ now → judged now key p.iss (key, p) ≡ expired
judged_dead now key p dead =
    ground (arith, (str_eq_iff key key).1 refl, (str_eq_iff p.iss p.iss).1 refl)

cons_text : (c : Char) (s : String) → str_eq (String.◌∷◌ c s) "" ≡ false
cons_text c s = elim (Bool-cases (str_eq (String.◌∷◌ c s) "")) [
  | inl e ↦ (let no = (str_eq_iff (String.◌∷◌ c s) "").0 e in cc)
  | inr e ↦ e
]

text_put : (s rest : String) → str_eq (put s rest) "" ≡ false
text_put String.[] rest = cons_text _ _
text_put (String.◌∷◌ c s) rest = cons_text _ _

text_put_number : (k : ℕ) → str_eq (put_number k "") "" ≡ false
text_put_number zero = cons_text "." ""
text_put_number (suc k) = cons_text _ _

abbrev pub libraries : Libraries
libraries = record {
  hashpw = λ salt password. if leb (len password) 72 then some (put salt password) else none;
  checkpw = λ password hashed.
      if leb (len password) 72 then some (str_eq (take_text hashed).1 password) else none;
  encode = write_token;
  decode = λ now key iss token. judged now key iss (read_token token);
  show_id = λ k. put_number k "";
  parse_id = λ s. some (take_number s).0;
}

checked_hash :
    (salt password hashed : String)
    → libraries.hashpw salt password ≡ some hashed
    → libraries.checkpw password hashed ≡ some true
checked_hash salt password hashed h = elim (Bool-cases (leb (len password) 72)) [
  | inl e ↦
      let same : put salt password ≡ hashed = ground (arith, e, h) in
      let read =
        ap (λ (t : String). (take_text t).1) (sym same)
        ∙ ap (λ (q : String × String). q.1) (take_text-put salt password) in
      ground (arith, e, (str_eq_iff (take_text hashed).1 password).1 read)
  | inr e ↦ ground (arith, e, h)
]

pub libraries-IsLawful : IsLawful libraries
libraries-IsLawful = record {
  hashpw_short = λ salt password short. (put salt password, ground arith);
  checkpw-hashpw = checked_hash;
  decode-encode = λ now key p issued live.
      ap (judged now key p.iss) (read_token-write p key) ∙ (judged_live now key p live);
  decode-encode_expired = λ now key p issued dead.
      ap (judged now key p.iss) (read_token-write p key) ∙ (judged_dead now key p dead);
  encode_text = λ p key. text_put key _;
  parse_id-show_id = λ k. ap (λ (p : ℕ × String). some p.0) (take_number-put k "");
  show_id_text = λ k. text_put_number k;
}
