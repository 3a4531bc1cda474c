-- ===== src/Scte35/Parser/Private.antt =====
-- parse_private_command of src/scte35/parser.cpp, which takes the length for what follows the identifier.
use metamix.Base.{ℕ, ◌+◌, ◌-◌, ◌^◌, ◌<◌, List, [], ◌∷◌, Bool, true, false, ◌≡◌, arith}
use metamix.Base.{length, ltb, ◌==◌, length-drop, ◌||◌}
use metamix.Binary.Outcome.{ok, bind-eq-ok, bind-refused, test_const}
use metamix.Binary.Read.{read_32, read_12_low, read_8}
use metamix.Scte35.Types.{Command, private_command}
use metamix.Scte35.Parser.{private_bytes, parse_private_command, parse_splice_schedule}
use metamix.Scte35.Parser.Section.{parse_command, check_command_length, parse_sized_command}

parse_private_command_consumed :
    (size : ℕ) (s : List ℕ) (command : Command) (rest : List ℕ)
    → parse_private_command size s ≡ ok (command, rest)
    → (size < 0xfff) × (length s ≡ 4 + size + length rest)
unfolding parse_private_command read_32 private_bytes
parse_private_command_consumed size [] command rest h = ground arith
parse_private_command_consumed size (a ∷ []) command rest h = ground arith
parse_private_command_consumed size (a ∷ b ∷ []) command rest h = ground arith
parse_private_command_consumed size (a ∷ b ∷ c ∷ []) command rest h = ground arith
parse_private_command_consumed size (a ∷ b ∷ c ∷ d ∷ s) command rest h =
    ground (arith, length-drop size s)

private_branch :
    (kind size : ℕ) (s : List ℕ) (identifier : ℕ) (bytes rest : List ℕ)
    → parse_command kind size s ≡ ok (private_command identifier bytes, rest)
    → parse_private_command size s ≡ ok (private_command identifier bytes, rest)
unfolding parse_command parse_splice_schedule
private_branch kind size s identifier bytes rest h = grind (arith, bind-eq-ok)

refused :
    (size consumed : ℕ) (s : List ℕ) (x : Unit × List ℕ)
    → size < 0xfff
    → consumed ≡ 4 + size
    → consumed < 2 ^ 16
    → ¬ (check_command_length consumed size s ≡ ok x)
unfolding check_command_length
refused size consumed s x hs hc hl h = ground arith

refused_command :
    (kind size : ℕ) (s : List ℕ) (identifier : ℕ) (bytes s₁ : List ℕ) (x : Unit × List ℕ)
    → parse_command kind size s ≡ ok (private_command identifier bytes, s₁)
    → ¬ (check_command_length (length s - length s₁) size s₁ ≡ ok x)
refused_command kind size s identifier bytes s₁ x h =
    let (hs, hl) =
      parse_private_command_consumed size s (private_command identifier bytes) s₁
        (private_branch kind size s identifier bytes s₁ h) in
    refused size (length s - length s₁) s₁ x hs (omega arith) (omega arith)

kept : (b : Bool) (s s₁ : List ℕ) {u : Unit} → test_const b s ≡ ok (u, s₁) → s₁ ≡ s
kept true s s₁ h = cc
kept false s s₁ h = cc

-- No bytes are parsed to a private command: the command's length never agrees with what was read.
pub private-never-parsed :
    (s rest : List ℕ) (identifier : ℕ) (bytes : List ℕ)
    → ¬ (parse_sized_command s ≡ ok (private_command identifier bytes, rest))
unfolding parse_sized_command
private-never-parsed s rest identifier bytes = bind-refused (read_12_low s) _ λ (size, s₁) _.
    bind-refused (read_8 s₁) _ λ (kind, s₂) _.
      bind-refused (test_const ((size == 0xfff) || ltb size (length s₂)) s₂) _ λ (_, s₃) e.
        bind-refused (parse_command kind size s₃) _ λ (command, s₄) parsed.
          bind-refused (check_command_length (length s₂ - length s₄) size s₄) _ λ x checked same.
            let same_bytes : s₃ ≡ s₂ = kept ((size == 0xfff) || ltb size (length s₂)) s₂ s₃ e in
            let is_private : command ≡ private_command identifier bytes = cc in
            refused_command kind size s₂ identifier bytes s₄ x
              (rw (← same_bytes, ← is_private) parsed) checked
