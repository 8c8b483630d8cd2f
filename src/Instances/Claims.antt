-- ===== src/Instances/Claims.antt =====
-- The claims in bytes.
use iot_athome.Prelude.{
  ℕ, suc, zero, ◌≡◌, refl, sym, ap, ◌∙◌, [], ◌∷◌, Bool, true, false, Text, codes, Result, ok, err,
  ◌>>=◌,
}
use iot_athome.Payloads.{ℤ, pos, negsuc}
use iot_athome.Jwt.{Codec, CodecLaws, UserClaims, AccountClaims, AccountLimits}
use iot_athome.Instances.{
  shift, unshift, unshift-shift, shift-lacks, put_text, get_text, put_list, get_list,
  get_text-put_text, get_list-put_list, same_ok,
}

abbrev put_int : ℤ → Text → Text
put_int (pos n) rest = 0 ∷ n ∷ rest
put_int (negsuc n) rest = 1 ∷ n ∷ rest

abbrev get_int : Text → Result Text (ℤ × Text)
get_int (zero ∷ n ∷ rest) = ok (pos n, rest)
get_int (suc s ∷ n ∷ rest) = ok (negsuc n, rest)
get_int _ = err (codes "eof")

abbrev get_nat : Text → Result Text (ℕ × Text)
get_nat [] = err (codes "eof")
get_nat (n ∷ rest) = ok (n, rest)

abbrev put_bool : Bool → Text → Text
put_bool true rest = 0 ∷ rest
put_bool false rest = 1 ∷ rest

abbrev get_bool : Text → Result Text (Bool × Text)
get_bool [] = err (codes "eof")
get_bool (zero ∷ rest) = ok (true, rest)
get_bool (suc n ∷ rest) = ok (false, rest)

abbrev user_bytes : UserClaims → Text
user_bytes c = put_text c.iss (
    put_text c.sub (
      c.iat
      ∷ c.exp
      ∷ put_text c.jti (
          put_text c.name (
            put_list c.nats.publish.allow
              (put_list c.nats.subscribe.allow (put_text c.nats.type_ (c.nats.version ∷ [])))))))

abbrev user_of : Text → Result Text UserClaims
user_of s0 = do
  (iss, s1) ← get_text s0
  (sub, s2) ← get_text s1
  (iat, s3) ← get_nat s2
  (exp, s4) ← get_nat s3
  (jti, s5) ← get_text s4
  (name, s6) ← get_text s5
  (publish, s7) ← get_list s6
  (subscribe, s8) ← get_list s7
  (type_, s9) ← get_text s8
  (version, s10) ← get_nat s9
  ok (record {
    iss = iss;
    sub = sub;
    iat = iat;
    exp = exp;
    jti = jti;
    name = name;
    nats = record {
      publish = record { allow = publish };
      subscribe = record { allow = subscribe };
      type_ = type_;
      version = version;
    };
  })

user_back : (c : UserClaims) → user_of (user_bytes c) ≡ ok c
user_back c =
    rw
      (
        get_text-put_text c.iss,
        get_text-put_text c.sub,
        get_text-put_text c.jti,
        get_text-put_text c.name,
        get_list-put_list c.nats.publish.allow,
        get_list-put_list c.nats.subscribe.allow,
        get_text-put_text c.nats.type_,
      )
      refl

abbrev limits_bytes : AccountLimits → Text → Text
limits_bytes l rest = put_int l.subs (
    put_int l.payload (
      put_int l.data_bytes (
        put_int l.imports (
          put_int l.exports (
            put_bool l.wildcards (
              put_int l.conn (
                put_int l.leaf (
                  put_int l.mem_storage
                    (put_int l.disk_storage (put_int l.streams (put_int l.consumer rest)))))))))))

abbrev limits_of : Text → Result Text (AccountLimits × Text)
limits_of s0 = do
  (subs, s1) ← get_int s0
  (payload, s2) ← get_int s1
  (data_bytes, s3) ← get_int s2
  (imports, s4) ← get_int s3
  (exports, s5) ← get_int s4
  (wildcards, s6) ← get_bool s5
  (conn, s7) ← get_int s6
  (leaf, s8) ← get_int s7
  (mem_storage, s9) ← get_int s8
  (disk_storage, s10) ← get_int s9
  (streams, s11) ← get_int s10
  (consumer, s12) ← get_int s11
  ok (
    record {
      subs = subs;
      payload = payload;
      data_bytes = data_bytes;
      imports = imports;
      exports = exports;
      wildcards = wildcards;
      conn = conn;
      leaf = leaf;
      mem_storage = mem_storage;
      disk_storage = disk_storage;
      streams = streams;
      consumer = consumer;
    },
    s12,
  )

int_back : (z : ℤ) (rest : Text) → get_int (put_int z rest) ≡ ok (z, rest)
int_back (pos n) rest = refl
int_back (negsuc n) rest = refl

bool_back : (b : Bool) (rest : Text) → get_bool (put_bool b rest) ≡ ok (b, rest)
bool_back true rest = refl
bool_back false rest = refl

limits_back : (l : AccountLimits) (rest : Text) → limits_of (limits_bytes l rest) ≡ ok (l, rest)
limits_back l rest =
    rw
      (
        int_back l.subs,
        int_back l.payload,
        int_back l.data_bytes,
        int_back l.imports,
        int_back l.exports,
        bool_back l.wildcards,
        int_back l.conn,
        int_back l.leaf,
        int_back l.mem_storage,
        int_back l.disk_storage,
        int_back l.streams,
        int_back l.consumer,
      )
      refl

abbrev account_bytes : AccountClaims → Text
account_bytes c = put_text c.iss (
    put_text c.sub (
      c.iat
      ∷ put_text c.name (limits_bytes c.nats.limits (put_text c.nats.type_ (c.nats.version ∷ [])))))

abbrev account_of : Text → Result Text AccountClaims
account_of s0 = do
  (iss, s1) ← get_text s0
  (sub, s2) ← get_text s1
  (iat, s3) ← get_nat s2
  (name, s4) ← get_text s3
  (limits, s5) ← limits_of s4
  (type_, s6) ← get_text s5
  (version, s7) ← get_nat s6
  ok (record {
    iss = iss;
    sub = sub;
    iat = iat;
    name = name;
    nats = record { limits = limits; type_ = type_; version = version };
  })

account_back : (c : AccountClaims) → account_of (account_bytes c) ≡ ok c
account_back c =
    rw
      (
        get_text-put_text c.iss,
        get_text-put_text c.sub,
        get_text-put_text c.name,
        limits_back c.nats.limits,
        get_text-put_text c.nats.type_,
      )
      refl

abbrev pub codec : Codec
codec = record {
  b64_encode = shift;
  b64_decode = λ s. ok (unshift s);
  user_to_vec = λ c. ok (user_bytes c);
  user_from_slice = user_of;
  account_to_vec = λ c. ok (account_bytes c);
  account_from_slice = account_of;
}

pub codec_laws : CodecLaws codec
codec_laws = record {
  encode-lacks = shift-lacks;
  decode-encode = λ s. ap ok (unshift-shift s);
  from_slice-to_vec_user = λ c s h. ap user_of (sym (same_ok h)) ∙ user_back c;
  from_slice-to_vec_account = λ c s h. ap account_of (sym (same_ok h)) ∙ account_back c;
}
