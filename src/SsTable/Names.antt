-- ===== src/SsTable/Names.antt =====
-- The names of the tables' files.
use yellowdb.Prelude.{ℕ, ◌≡◌, sym, ap, ◌∙◌, ◌++◌, drop}
use yellowdb.Text.{Key}
use yellowdb.Text.Literal.{codes}
use yellowdb.Text.Decimal.{digits, padded, read_number, read-digits, read-padded}

unfoldable pub create_filename : ℕ → ℕ → Key
unfolding digits padded
create_filename sequence level =
    codes "level_" ++ (digits level ++ (codes "_seq_" ++ (padded sequence ++ codes ".sst")))

-- the number at the start of what is left behind so many characters
number_at : ℕ → Key → ℕ × Key
number_at n s = read_number 0 (drop n s)

level_of :
    (sequence level : ℕ)
    → number_at 6 (create_filename sequence level)
      ≡ (level, codes "_seq_" ++ (padded sequence ++ codes ".sst"))
unfolding create_filename number_at read_number
level_of sequence level = read-digits level (codes "_seq_" ++ (padded sequence ++ codes ".sst"))

sequence_of :
    (sequence : ℕ)
    → number_at 5 (codes "_seq_" ++ (padded sequence ++ codes ".sst")) ≡ (sequence, codes ".sst")
unfolding number_at read_number
sequence_of sequence = read-padded sequence (codes ".sst")

-- Tables with the same file name have the same sequence number and the same level.
pub create_filename_inj :
    (sequence sequence' level level' : ℕ)
    → create_filename sequence level ≡ create_filename sequence' level'
    → (sequence ≡ sequence') × (level ≡ level')
create_filename_inj sequence sequence' level level' h =
    let e = sym (level_of sequence level) ∙ ap (number_at 6) h ∙ level_of sequence' level' in
    let f =
      sym (sequence_of sequence)
      ∙ ap (λ (r : ℕ × Key). number_at 5 r.1) e
      ∙ sequence_of sequence' in
    (ap (λ (r : ℕ × Key). r.0) f, ap (λ (r : ℕ × Key). r.0) e)
