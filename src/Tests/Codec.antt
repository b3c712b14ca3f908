-- ===== src/Tests/Codec.antt =====
-- A concrete `Crypto`: nothing is encrypted, a signature is the message, and a dictionary is written
-- as its length with its keys and values, each text with its length in front.
use mathlib.Core.Option
use aimless.Prelude.{
  ℕ, zero, suc, ◌≡◌, refl, ap, ◌∙◌, some, none, Option, [], ◌∷◌, ◌++◌, Text, text_eq, text_eq_iff,
  length, take, drop, take-append_left, drop-append_left, ◌==◌, ◌%◌, arith, replicate,
}
use aimless.Protocol.Crypto.{
  Value, str, num, nested, Fields, Document, dict, get, tidy_value, Crypto,
}

write_text : Text → Text
write_text t = length t ∷ t

read_text : Text → Text × Text
read_text [] = ([], [])
read_text (n ∷ rest) = (take n rest, drop n rest)

write_value : Value Text → Text
unfolding write_text
write_value (str t) = 0 ∷ write_text t
write_value (num n) = 1 ∷ n ∷ []
write_value (nested t) = 2 ∷ write_text t

read_value : Text → Value Text × Text
unfolding read_text
read_value (zero ∷ rest) = let (t, r) = read_text rest in (str t, r)
read_value (suc zero ∷ n ∷ rest) = (num n, rest)
read_value (suc (suc k) ∷ rest) = let (t, r) = read_text rest in (nested t, r)
read_value _ = (num 0, [])

unfoldable pub write_fields : Fields Text → Text
unfolding write_value
write_fields [] = []
write_fields ((k, v) ∷ f) = write_text k ++ (write_value v ++ write_fields f)

unfoldable pub read_fields : ℕ → Text → Fields Text
unfolding read_value
read_fields zero rest = []
read_fields (suc n) rest =
    let (k, r) = read_text rest in let (v, r') = read_value r in (k, v) ∷ read_fields n r'

read_text-write_text : (t rest : Text) → read_text (write_text t ++ rest) ≡ (t, rest)
unfolding read_text write_text
read_text-write_text t rest =
    ap (λ a. (a, drop (length t) (t ++ rest))) (take-append_left t rest)
    ∙ ap (λ b. (t, b)) (drop-append_left t rest)

read_value-write_value :
    (v : Value Text) (rest : Text) → read_value (write_value v ++ rest) ≡ (v, rest)
unfolding read_value write_value
read_value-write_value (str t) rest = ap (λ p. (str p.0, p.1)) (read_text-write_text t rest)
read_value-write_value (num n) rest = refl
read_value-write_value (nested t) rest = ap (λ p. (nested p.0, p.1)) (read_text-write_text t rest)

read_fields-write_fields : (f : Fields Text) → read_fields (length f) (write_fields f) ≡ f
unfolding read_fields write_fields
read_fields-write_fields [] = refl
read_fields-write_fields ((k, v) ∷ f) =
    let n = length f in
    ap (λ p. (p.0, (read_value p.1).0) ∷ read_fields n (read_value p.1).1)
      (read_text-write_text k (write_value v ++ write_fields f))
    ∙ ap (λ q. (k, q.0) ∷ read_fields n q.1) (read_value-write_value v (write_fields f))
    ∙ ap (λ g. (k, v) ∷ g) (read_fields-write_fields f)

abbrev pub dumps : Fields Text → Text
dumps f = length f ∷ write_fields f

abbrev pub loads : Text → Option (Document Text)
loads [] = none
loads (n ∷ rest) = some (dict (read_fields n rest))

pub loads-dumps : (f : Fields Text) → loads (dumps f) ≡ some (dict f)
loads-dumps f = ap (λ g. some (dict g)) (read_fields-write_fields f)

pub tidy_nothing : (o : Option (Value Text)) → o ≡ Option.map (tidy_value (λ j. j)) o
tidy_nothing none = refl
tidy_nothing (some (str t)) = refl
tidy_nothing (some (num n)) = refl
tidy_nothing (some (nested j)) = refl

-- The keys are numbers; the public key of `n` is 31 zeros and `n % 256`.
abbrev pub plain_crypto : Crypto ℕ Text
plain_crypto = record {
  verify_key = λ k. replicate 31 0 ++ (k % 256) ∷ [];
  sign = λ k m. m;
  is_verify_key = λ k. length k == 32;
  verify = λ k m s. text_eq s m;
  curve_key = λ k. some k;
  seal = λ seed c m. m;
  unseal = λ k m. some m;
  b64encode = λ b. b;
  b64decode = λ t. some t;
  encode = λ t. some t;
  dumps = dumps;
  dumps_sorted = dumps;
  loads = loads;
  loads_bytes = loads;
  tidy = λ j. j;
  verify_key_bytes = λ k. omega arith;
  is_verify_key_lem = λ k. refl;
  verify-sign = λ k m. (text_eq_iff m m).1 refl;
  unseal-seal = λ k seed c m e. refl;
  b64decode-b64encode = λ b. refl;
  encode-dumps = λ f. refl;
  encode-dumps_sorted = λ f. refl;
  loads_bytes-dumps = loads-dumps;
  loads-dumps_sorted = λ f. (f, loads-dumps f, λ key. tidy_nothing (get key f));
}
