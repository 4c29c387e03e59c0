-- ===== src/Manager/Exec.antt =====
-- What the child of a `fork` runs (`start_worker` of src/mgmt/manager.rs), and `to_string` of a `u64`.
use Prim.Native.Char.{Char, code}
use Prim.Native.String.{[] as nil, ◌∷◌ as cons}
use weldr.Common.{
  ℕ, zero, suc, ◌%◌, ◌/◌, ◌≡◌, refl, arith, String, Bool, true, false, not, none, some, List, [],
  ◌∷◌, if◌then◌else◌, ltb, nat_beq, get_elem?, All-got, Option-cases, inl, inr,
}

abbrev digits : List Char
digits = "0" ∷ "1" ∷ "2" ∷ "3" ∷ "4" ∷ "5" ∷ "6" ∷ "7" ∷ "8" ∷ "9" ∷ []

abbrev digit : ℕ → Char
digit d = elim (get_elem? digits d) [ some c ↦ c | none ↦ "0" ]

-- The decimal digits in front of a text, on fuel: one unit for a digit.
unfoldable pub push_digits : ℕ → ℕ → String → String
push_digits zero n text = text
push_digits (suc fuel) n text =
    let longer = cons (digit (n % 10)) text in
    let rest = push_digits fuel (n / 10) longer in if ltb n 10 then longer else rest

-- A `u64` has at most twenty digits.
unfoldable pub to_string : ℕ → String
unfolding push_digits
to_string n = push_digits 20 n ""

-- Whether a text is no option, for the command line.
abbrev pub hyphenless : String → Bool
hyphenless nil = true
hyphenless (cons c rest) = not (nat_beq (code c) 45)

digit-hyphenless : (d : ℕ) → nat_beq (code (digit d)) 45 ≡ false
digit-hyphenless d = elim (Option-cases (get_elem? digits d)) [
  | inl none_there ↦ rw none_there
  | inr (c, there) ↦
      let plain = All-got (λ c. nat_beq (code c) 45 ≡ false) digits d c (ground arith) there in
      rw there plain
]

push_digits-hyphenless :
    (fuel n : ℕ) (text : String)
    → hyphenless text ≡ true
    → hyphenless (push_digits fuel n text) ≡ true
unfolding push_digits
push_digits-hyphenless zero n text h = h
push_digits-hyphenless (suc fuel) n text h =
    let first = digit-hyphenless (n % 10) in
    ground (arith, first, push_digits-hyphenless fuel (n / 10) (cons (digit (n % 10)) text))

pub to_string-hyphenless : (n : ℕ) → hyphenless (to_string n) ≡ true
unfolding to_string
to_string-hyphenless n = push_digits-hyphenless 20 n "" refl

-- `Command`, as far as it is told: the program and its arguments.
pub record Command : Type 0 where
  pub program : String
  pub args : List String

unfoldable pub worker_command : String → ℕ → Command
unfolding to_string
worker_command path id = record { program = path; args = "worker" ∷ "--id" ∷ to_string id ∷ [] }
