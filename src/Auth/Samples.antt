-- ===== src/Auth/Samples.antt =====
-- A library and a store that keep the laws of Library.antt, for the tests: two texts stand for two claims,
-- and a store keeps each value until its time is over.
use chat2sql.Prelude.{
  ℕ, ◌+◌, ◌≤◌, ◌≡◌, refl, ap, ◌∙◌, Bool, true, false, ◌&&◌, Option, none, some, List, [], ◌∷◌, ◌++◌,
  Bytes, codes, same_bytes, same_bytes_iff, ltb, ◌==◌, ==_iff, if◌then◌else◌, ℤ, pos, negsuc, Dict,
  text_key, lookup, insert, lookup-insert_self, some_subst, arith,
}
use chat2sql.Auth.Claims.{Claims}
use chat2sql.Auth.Library.{Jwt, JwtLaws, rsa, Redis, RedisLaws, millisecond}

abbrev same_int : ℤ → ℤ → Bool
same_int (pos m) (pos n) = m == n
same_int (negsuc m) (negsuc n) = m == n
same_int _ _ = false

abbrev same_time : Option ℕ → Option ℕ → Bool
same_time none none = true
same_time (some m) (some n) = m == n
same_time _ _ = false

abbrev same_texts : List Bytes → List Bytes → Bool
same_texts [] [] = true
same_texts (s ∷ ss) (t ∷ ts) = same_bytes s t && same_texts ss ts
same_texts _ _ = false

abbrev same_claims : Claims → Claims → Bool
same_claims a b =
    same_int a.user_id b.user_id
    && (same_bytes a.username b.username
        && (same_bytes a.role b.role
            && (same_bytes a.token_type b.token_type
                && (same_bytes a.issuer b.issuer
                    && (same_bytes a.subject b.subject
                        && (same_texts a.audience b.audience
                            && (same_time a.expires_at b.expires_at
                                && (same_time a.not_before b.not_before
                                    && (same_time a.issued_at b.issued_at
                                        && same_bytes a.id b.id)))))))))

both : (a b : Bool) → (a && b) ≡ true → (a ≡ true) × (b ≡ true)
both true b h = (refl, h)
both false b h = grind arith

same_int-eq : (a b : ℤ) → same_int a b ≡ true → a ≡ b
same_int-eq (pos m) (pos n) h = ap pos ((==_iff m n).0 h)
same_int-eq (negsuc m) (negsuc n) h = ap negsuc ((==_iff m n).0 h)
same_int-eq (pos m) (negsuc n) h = grind arith
same_int-eq (negsuc m) (pos n) h = grind arith

same_time-eq : (a b : Option ℕ) → same_time a b ≡ true → a ≡ b
same_time-eq none none h = refl
same_time-eq (some m) (some n) h = ap some ((==_iff m n).0 h)
same_time-eq none (some n) h = grind arith
same_time-eq (some m) none h = grind arith

same_texts-eq : (a b : List Bytes) → same_texts a b ≡ true → a ≡ b
same_texts-eq [] [] h = refl
same_texts-eq (s ∷ ss) (t ∷ ts) h =
    let (first, rest) = both _ _ h in
    ap (λ u. u ∷ ss) ((same_bytes_iff s t).0 first) ∙ ap (λ us. t ∷ us) (same_texts-eq ss ts rest)
same_texts-eq [] (t ∷ ts) h = grind arith
same_texts-eq (s ∷ ss) [] h = grind arith

same_claims-eq : (a b : Claims) → same_claims a b ≡ true → a ≡ b
same_claims-eq a b h =
    let (p1, h1) = both _ _ h in
    let (p2, h2) = both _ _ h1 in
    let (p3, h3) = both _ _ h2 in
    let (p4, h4) = both _ _ h3 in
    let (p5, h5) = both _ _ h4 in
    let (p6, h6) = both _ _ h5 in
    let (p7, h7) = both _ _ h6 in
    let (p8, h8) = both _ _ h7 in
    let (p9, h9) = both _ _ h8 in
    let (p10, p11) = both _ _ h9 in
    λ i. record {
      user_id = same_int-eq a.user_id b.user_id p1 i;
      username = (same_bytes_iff a.username b.username).0 p2 i;
      role = (same_bytes_iff a.role b.role).0 p3 i;
      token_type = (same_bytes_iff a.token_type b.token_type).0 p4 i;
      issuer = (same_bytes_iff a.issuer b.issuer).0 p5 i;
      subject = (same_bytes_iff a.subject b.subject).0 p6 i;
      audience = same_texts-eq a.audience b.audience p7 i;
      expires_at = same_time-eq a.expires_at b.expires_at p8 i;
      not_before = same_time-eq a.not_before b.not_before p9 i;
      issued_at = same_time-eq a.issued_at b.issued_at p10 i;
      id = (same_bytes_iff a.id b.id).0 p11 i;
    }

-- "a" and "r" are the texts of the two claims.
abbrev pub sample_sign : Claims → Claims → Claims → Option Bytes
sample_sign a r c =
    if same_claims a c then some (codes "a") else if same_claims r c then some (codes "r") else none

abbrev pub sample_parse : Claims → Claims → Bytes → Option Claims
sample_parse a r s =
    if same_bytes s (codes "a") then some a else if same_bytes s (codes "r") then some r else none

abbrev admitted : {A : Type 0} → Option (Unit {0}) → Option A → Option A
admitted none o = none
admitted (some key) o = o

abbrev pub sample_jwt : Claims → Claims → Jwt
sample_jwt a r = record {
  PrivateKey = Unit;
  PublicKey = Unit;
  public_of = λ k. tt;
  sign = λ k c. sample_sign a r c;
  parse = λ choose validated now s. admitted (choose rsa) (sample_parse a r s);
}

sample_parse-sign :
    (a r c : Claims) (s : Bytes) → sample_sign a r c ≡ some s → sample_parse a r s ≡ some c
unfolding same_bytes
sample_parse-sign a r c s = signed (same_claims a c) (same_claims r c) refl refl
  where
    signed :
        (x y : Bool)
        → same_claims a c ≡ x
        → same_claims r c ≡ y
        → (if x then some (codes "a") else if y then some (codes "r") else none) ≡ some s
        → sample_parse a r s ≡ some c
    signed true y p q e =
        some_subst (λ t. sample_parse a r t ≡ some c) e (ap some (same_claims-eq a c p))
    signed false true p q e =
        some_subst (λ t. sample_parse a r t ≡ some c) e (ap some (same_claims-eq r c q))
    signed false false p q e = grind arith

sample_parse-header :
    (a r : Claims) (s : Bytes) (o : Option (Unit {0}))
    → admitted o (sample_parse a r (codes "Bearer " ++ s)) ≡ none
unfolding same_bytes
sample_parse-header a r s none = refl
sample_parse-header a r s (some key) = refl

pub sample_laws : (a r : Claims) → JwtLaws (sample_jwt a r)
sample_laws a r = record {
  parse-sign =
      λ key choose now c s signed chosen current. rw (chosen, sample_parse-sign a r c s signed);
  parse-sign_unvalidated =
      λ key choose now c s signed chosen. rw (chosen, sample_parse-sign a r c s signed);
  parse-header = λ choose validated now s. sample_parse-header a r s (choose rsa);
}

-- A store: each key with its value and when its time is over.
abbrev live : ℕ → Option (Bytes × ℕ) → Option Bytes
live now none = none
live now (some (v, over)) = if ltb now over then some v else none

abbrev is_some : Option Bytes → Bool
is_some none = false
is_some (some v) = true

abbrev pub sample_redis : Redis
sample_redis = record {
  Store = Dict Bytes (Bytes × ℕ);
  set = λ key value ttl now s. some (insert key (value, now + ttl) s);
  exists = λ key now s. some (is_some (live now (lookup key s)));
  get = λ key now s. some (live now (lookup key s));
}

sample_redis-get :
    (key value : Bytes) (ttl now later : ℕ) (s s' : Dict Bytes (Bytes × ℕ))
    → sample_redis.set key value ttl now s ≡ some s'
    → later + millisecond ≤ now + ttl
    → live later (lookup key s') ≡ some value
sample_redis-get key value ttl now later s s' set kept =
    some_subst (λ m. live later (lookup key m) ≡ some value) set
      (rw (lookup-insert_self key (value, now + ttl) s, running))
  where
    running : ltb later (now + ttl) ≡ true
    running = ground arith

pub sample_redis_laws : RedisLaws sample_redis
sample_redis_laws = record {
  exists-set = λ key value ttl now later s s' set after kept.
      rw (sample_redis-get key value ttl now later s s' set kept) (grind arith);
  get-set = λ key value ttl now later s s' answer set after kept found.
      some_subst (λ o. o ≡ some value) found
        (sample_redis-get key value ttl now later s s' set kept);
}
