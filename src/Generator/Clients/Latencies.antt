-- ===== src/Generator/Clients/Latencies.antt =====
-- The latencies that `main` of the generator sums up: their order does not matter (cmd/log-generator/main.go).
use log_service.Prelude.{
  ℕ, ◌≡◌, ◌≢◌, Option, none, some, refl, sym, ap, ◌∙◌, List, [], ◌∷◌, ◌++◌, inl, inr, Bool-cases,
  ltb, ◌==◌, arith, if_both,
}
use log_service.Prelude.Int.{ℤ}
use log_service.Prelude.Sorting.{insert, sort}
use log_service.Prelude.Sorting.Laws.{IsOrder, insert-insert}
use log_service.Generator.{summary}

ltb-IsOrder : IsOrder ltb
ltb-IsOrder = record {
  irrefl = λ a. ground arith;
  trans = λ a b c h k. ground arith;
  connex = λ a b h k. ground arith;
}

insert_comm : (m n : ℕ) (l : List ℕ) → insert ltb m (insert ltb n l) ≡ insert ltb n (insert ltb m l)
insert_comm m n l = elim (Bool-cases (m == n)) [
  | inl e ↦ let same : m ≡ n = ground arith in rw same refl
  | inr e ↦ insert-insert ltb (λ k. k) ltb-IsOrder m n l (λ same. ground arith)
]

sort_last : (l : List ℕ) (n : ℕ) → sort ltb (l ++ (n ∷ [])) ≡ insert ltb n (sort ltb l)
unfolding sort
sort_last [] n = refl
sort_last (m ∷ l) n = ap (insert ltb m) (sort_last l n) ∙ insert_comm m n (sort ltb l)

abbrev pub append_some : Option ℕ → List ℕ → List ℕ
append_some none l = l
append_some (some n) l = l ++ (n ∷ [])

pub sort-append_some :
    (j : Option ℕ) (l r : List ℕ)
    → sort ltb l ≡ sort ltb r
    → sort ltb (append_some j l) ≡ sort ltb (append_some j r)
sort-append_some none l r h = h
sort-append_some (some n) l r h = sort_last l n ∙ (ap (insert ltb n) h ∙ sym (sort_last r n))

pub sort-append_some_comm :
    (j k : Option ℕ) (l : List ℕ)
    → sort ltb (append_some j (append_some k l)) ≡ sort ltb (append_some k (append_some j l))
sort-append_some_comm none k l = refl
sort-append_some_comm (some m) none l = refl
sort-append_some_comm (some m) (some n) l = cc (
  sort_last (l ++ (n ∷ [])) m,
  sort_last (l ++ (m ∷ [])) n,
  sort_last l m,
  sort_last l n,
  insert_comm m n (sort ltb l),
)

insert_some : (n : ℕ) (l : List ℕ) → insert ltb n l ≢ []
unfolding insert
insert_some n [] = λ e. cc
insert_some n (m ∷ l) = if_both (λ r. r ≢ []) (ltb n m) _ _ (λ e. cc) (λ e. cc)

-- The summary looks at the sorted latencies only.
pub summary_sorted :
    (scaled : ℕ → ℤ) (l r : List ℕ) → sort ltb l ≡ sort ltb r → summary scaled l ≡ summary scaled r
unfolding summary sort
summary_sorted scaled [] [] h = refl
summary_sorted scaled [] (n ∷ r) h = absurd (insert_some n (sort ltb r) (sym h))
summary_sorted scaled (m ∷ l) [] h = absurd (insert_some m (sort ltb l) h)
summary_sorted scaled (m ∷ l) (n ∷ r) h = rw h refl
