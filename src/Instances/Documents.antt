-- ===== src/Instances/Documents.antt =====
-- The access document of a plugin in bytes, and a process around the commands.
use iot_athome.Prelude.{
  ℕ, ◌≡◌, refl, sym, ap, ◌∙◌, List, [], ◌∷◌, true, Option, some, none, Text, codes, Result, ok, err,
  ◌>>=◌,
}
use iot_athome.Json.{Json, Items, nil, item, no_field, field, string, array, object}
use iot_athome.Nats.{Host, HostLaws}
use iot_athome.Instances.{
  put_text, get_text, put_list, get_list, get_text-put_text, get_list-put_list, same_ok,
}

abbrev items_of : List Text → Items ℕ
items_of [] = nil
items_of (s ∷ ss) = item (string s) (items_of ss)

-- The texts of an array that has nothing else.
abbrev texts_view : (items : Items ℕ) → Option ((ss : List Text) × (items_of ss ≡ items))
texts_view nil = some ([], refl)
texts_view (item (string s) items) = elim (texts_view items) [
  | none ↦ none
  | some (ss, e) ↦ some (s ∷ ss, ap (item (string s)) e)
]
texts_view (item v items) = none

abbrev document : Text → Text → Text → Text → Text → List Text → Text → List Text → Json ℕ
document k a l b m ps n ss = object (
    field k (string a)
      (field l (string b) (field m (array (items_of ps)) (field n (array (items_of ss)) no_field))))

abbrev bytes : Text → Text → Text → Text → Text → List Text → Text → List Text → Text
bytes k a l b m ps n ss =
    put_text k (
      put_text a (put_text l (put_text b (put_text m (put_list ps (put_text n (put_list ss [])))))))

abbrev view :
    (v : Json ℕ)
    → Option (
        (k : Text) × (a : Text) × (l : Text) × (b : Text) × (m : Text) × (ps : List Text)
        × (n : Text) × (ss : List Text) × (document k a l b m ps n ss ≡ v))
view
      (object (
        field k
          (string a)
          (field l (string b) (field m (array ps) (field n (array ss) no_field))))) =
    elim (texts_view ps) [
      | none ↦ none
      | some (publish, p) ↦ elim (texts_view ss) [
        | none ↦ none
        | some (subscribe, q) ↦ some (
          k,
          a,
          l,
          b,
          m,
          publish,
          n,
          subscribe,
          ap
                (λ x. object (
                  field k (string a) (
                    field l (string b)
                      (field m (array x) (field n (array (items_of subscribe)) no_field)))))
                p
              ∙ ap
                  (λ x. object (
                    field k (string a)
                      (field l (string b) (field m (array ps) (field n (array x) no_field)))))
                  q,
        )
      ]
    ]
view v = none

abbrev print_viewed :
    (v : Json ℕ)
    → Option (
        (k : Text) × (a : Text) × (l : Text) × (b : Text) × (m : Text) × (ps : List Text)
        × (n : Text) × (ss : List Text) × (document k a l b m ps n ss ≡ v))
    → Result Text Text
print_viewed v none = err (codes "unsupported")
print_viewed v (some (k, a, l, b, m, ps, n, ss, e)) = ok (bytes k a l b m ps n ss)

-- Only documents of the shape of `acl.json` are printed.
abbrev print : Json ℕ → Result Text Text
print v = print_viewed v (view v)

abbrev parse_all : Text → Result Text (Json ℕ)
parse_all s0 = do
  (k, s1) ← get_text s0
  (a, s2) ← get_text s1
  (l, s3) ← get_text s2
  (b, s4) ← get_text s3
  (m, s5) ← get_text s4
  (ps, s6) ← get_list s5
  (n, s7) ← get_text s6
  (ss, s8) ← get_list s7
  ok (document k a l b m ps n ss)

parse_back :
    (k a l b m n : Text) (ps ss : List Text)
    → parse_all (bytes k a l b m ps n ss) ≡ ok (document k a l b m ps n ss)
parse_back k a l b m n ps ss =
    rw
      (
        get_text-put_text k,
        get_text-put_text a,
        get_text-put_text l,
        get_text-put_text b,
        get_text-put_text m,
        get_list-put_list ps,
        get_text-put_text n,
        get_list-put_list ss,
      )
      refl

abbrev to_option : Result Text (Json ℕ) → Option (Json ℕ)
to_option (ok v) = some v
to_option (err e) = none

read_back :
    (v : Json ℕ) (s : Text)
    → (o : Option _) → print_viewed v o ≡ ok s
    → to_option (parse_all s) ≡ some v
read_back v s none h = cc
read_back v s (some (k, a, l, b, m, ps, n, ss, e)) h =
    ap (λ t. to_option (parse_all t)) (sym (same_ok h))
    ∙ ap to_option (parse_back k a l b m n ps ss)
    ∙ ap some e

abbrev pub host : Host ℕ
host = record {
  new_mode = 420;
  valid_utf8 = λ s. true;
  from_str = λ s. to_option (parse_all s);
  to_string_pretty = print;
  now = 1_700_000_000;
  jti_bytes = codes "0123456789abcdef";
}

pub host_laws : HostLaws host
host_laws = record { from_str-to_string_pretty = λ v s h. read_back v s (view v) h }
