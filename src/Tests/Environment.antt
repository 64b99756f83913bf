-- ===== src/Tests/Environment.antt =====
-- A stand-in for the packages that the examples use: a JSON value is a list of numbers.
use yellowdb.Prelude.{
  ℕ, zero, suc, ◌≤◌, ◌≡◌, refl, ap, [], ◌∷◌, ◌++◌, length, length-append, take, drop,
  take-append_self, drop-append_self, arith,
}
use yellowdb.Errors.{Result, ok, raise, value_error}
use yellowdb.Text.{Key, Bytes}
use yellowdb.Text.Order.{key_eq}
use yellowdb.Dict.{Dict}
use yellowdb.Examples.Environment.{Environment}

abbrev flatten : Dict Bytes → Bytes
flatten [] = []
flatten ((k, v) ∷ d) = length k ∷ length v ∷ (k ++ (v ++ flatten d))

abbrev parse : ℕ → Bytes → Dict Bytes
parse zero s = []
parse (suc n) [] = []
parse (suc n) (a ∷ []) = []
parse (suc n) (a ∷ b ∷ s) = (take a s, take b (drop a s)) ∷ parse n (drop b (drop a s))

pub parse-flatten : (n : ℕ) (d : Dict Bytes) → length (flatten d) ≤ n → parse n (flatten d) ≡ d
parse-flatten zero [] h = refl
parse-flatten (suc n) [] h = refl
parse-flatten zero ((k, v) ∷ d) h = absurd (omega arith)
parse-flatten (suc n) ((k, v) ∷ d) h =
    let a = take-append_self (length k) k (v ++ flatten d) refl in
    let b = drop-append_self (length k) k (v ++ flatten d) refl in
    let c = take-append_self (length v) v (flatten d) refl in
    let f = drop-append_self (length v) v (flatten d) refl in
    rw (a, b, c, f)
      (ap (◌∷◌ (k, v)) (
        parse-flatten n d
          (omega (arith, h, length-append k (v ++ flatten d), length-append v (flatten d)))))

abbrev read_dict : Bytes → Result (Dict Bytes)
read_dict (suc (suc zero) ∷ s) = ok (parse (length s) s)
read_dict s = raise value_error

abbrev read_string : Bytes → Result Key
read_string (zero ∷ s) = ok s
read_string s = raise value_error

abbrev read_integer : Bytes → Result ℕ
read_integer (suc zero ∷ n ∷ s) = ok n
read_integer s = raise value_error

abbrev show : Bytes → Key
show (zero ∷ s) = s
show s = []

abbrev read : Bytes → Result Bytes
read [] = raise value_error
read (c ∷ s) = ok s

abbrev read_date : Key → Result ℕ
read_date [] = raise value_error
read_date (t ∷ s) = ok t

pub same_string : (k j : Key) → key_eq (0 ∷ k) (0 ∷ j) ≡ key_eq k j
unfolding key_eq
same_string k j = refl

abbrev pub environment : Environment
environment = record {
  Json = Bytes;
  string = λ k. 0 ∷ k;
  integer = λ n. 1 ∷ n ∷ [];
  object = λ d. 2 ∷ flatten d;
  as_object = read_dict;
  as_string = read_string;
  as_integer = read_integer;
  same = λ v k. key_eq v (0 ∷ k);
  format = show;
  dumps = λ v. 5 ∷ v;
  loads = read;
  isoformat = λ t. t ∷ [];
  fromisoformat = read_date;
  as_object-object = λ d. ap ok (parse-flatten (length (flatten d)) d (omega arith));
  as_string-string = λ k. refl;
  as_integer-integer = λ n. refl;
  same-string = same_string;
  format-string = λ k. refl;
  dumps-nonempty = λ v. omega arith;
  loads-dumps = λ v. refl;
  fromisoformat-isoformat = λ t. refl;
}
