-- ===== src/Spool/Dir/Names.antt =====
-- Names of files in a spool directory: those of batches and replay files are the ones that `Glob` of `*.jsonl`
-- finds, and a temporary file is not.
use log_service.Prelude.{
  ℕ, zero, suc, ◌+◌, ◌<◌, ◌%◌, ◌/◌, ◌≡◌, refl, sym, ap, ◌∙◌, false, true, [], ◌∷◌, ◌++◌, ltb,
  Bool-cases, inl, inr, arith,
}
use mathlib.Core.List.{append_assoc}
use log_service.Prelude.Text.{
  Text, codes, text_eq, text_eq_sound, has_suffix, decimal, decimal_digits,
}
use log_service.Spool.Dir.{has_slash, is_batch}
use log_service.Spool.Dir.Laws.{has_suffix-append}

has_slash-append :
    (s t : Text) → has_slash s ≡ false → has_slash t ≡ false → has_slash (s ++ t) ≡ false
unfolding has_slash
has_slash-append [] t hs ht = ht
has_slash-append (c ∷ s) t hs ht = ground (arith, has_slash-append s t)

has_slash-digit : (n : ℕ) → n < 10 → has_slash ((n + 48) ∷ []) ≡ false
unfolding has_slash
has_slash-digit n h = ground arith

has_slash-decimal_digits : (fuel n : ℕ) → has_slash (decimal_digits fuel n) ≡ false
unfolding decimal_digits has_slash
has_slash-decimal_digits zero n = refl
has_slash-decimal_digits (suc fuel) n = elim (Bool-cases (ltb n 10)) [
  | inl small ↦ rw small (has_slash-digit n (ground arith))
  | inr large ↦ rw large (
      has_slash-append (decimal_digits fuel (n / 10)) ((n % 10 + 48) ∷ [])
        (has_slash-decimal_digits fuel (n / 10)) (has_slash-digit (n % 10) (omega arith)))
]

slash_free : (pid : ℕ) → has_slash (b'-' ∷ (decimal pid ++ codes ".jsonl")) ≡ false
unfolding has_slash decimal
slash_free pid =
    has_slash-append (decimal pid) (codes ".jsonl") (has_slash-decimal_digits (suc pid) pid) refl

-- If the format of the time has no slash, `filepath.Glob` of `*.jsonl` finds the name that is made of it and of
-- the process number.
pub is_batch-stamp :
    (stamp : Text) (pid : ℕ)
    → has_slash stamp ≡ false
    → is_batch (stamp ++ (b'-' ∷ (decimal pid ++ codes ".jsonl"))) ≡ true
unfolding is_batch
is_batch-stamp stamp pid h =
    rw
      (
        has_slash-append stamp (b'-' ∷ (decimal pid ++ codes ".jsonl")) h (slash_free pid),
        sym (append_assoc stamp (b'-' ∷ decimal pid) (codes ".jsonl")),
        has_suffix-append (stamp ++ (b'-' ∷ decimal pid)) (codes ".jsonl"),
      )
      refl

-- The last rune of a text.
last : ℕ → Text → ℕ
last d [] = d
last d (c ∷ s) = last c s

last-tmp : (d : ℕ) (s : Text) → last d (s ++ codes ".tmp") ≡ b'p'
unfolding last
last-tmp d [] = refl
last-tmp d (c ∷ s) = last-tmp c s

has_suffix-tmp : (s : Text) → has_suffix (s ++ codes ".tmp") (codes ".jsonl") ≡ false
unfolding has_suffix text_eq last
has_suffix-tmp [] = refl
has_suffix-tmp (c ∷ s) = elim (Bool-cases (text_eq (c ∷ (s ++ codes ".tmp")) (codes ".jsonl"))) [
  | inl same ↦
      let p : c ∷ (s ++ codes ".tmp") ≡ codes ".jsonl" =
        text_eq_sound (c ∷ (s ++ codes ".tmp")) (codes ".jsonl") same in
      absurd (clash (sym (last-tmp c s) ∙ ap (last 0) p))
  | inr other ↦ rw other (has_suffix-tmp s)
]
  where
    clash : ◌≡◌ {A = ℕ} b'p' b'l' → ⊥
    clash e = ground arith

-- A temporary file is none that a pass looks for.
pub is_batch-tmp : (name j : Text) → is_batch j ≡ true → text_eq (name ++ codes ".tmp") j ≡ false
unfolding is_batch
is_batch-tmp name j h = elim (Bool-cases (text_eq (name ++ codes ".tmp") j)) [
  | inl same ↦ absurd (clash (text_eq_sound (name ++ codes ".tmp") j same))
  | inr other ↦ other
]
  where
    clash : name ++ codes ".tmp" ≡ j → ⊥
    clash p = ground (arith, has_suffix-tmp name, ap (λ t. has_suffix t (codes ".jsonl")) p)
