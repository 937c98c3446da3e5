-- ===== src/Tests/Scores.antt =====
-- Fixed-point numbers in hundredths for the scores, and candidates over them.
use fediway.Prelude.{ℕ, ◌+◌, ◌-◌, ◌*◌, ◌/◌, ◌≡◌, ap, true, false, some, String, arith, compare}
use fediway.Prelude.Float.{Float, IsIeee, fle, swap}
use fediway.Feed.Candidate.{Candidate}

instance abbrev pub hundredths : Float ℕ
hundredths = record {
  zero = 0;
  neg_infinity = 0;
  of_nat = λ n. n * 100;
  add = λ a b. a + b;
  sub = λ a b. a - b;
  mul = λ a b. a * b / 100;
  div = λ a b. a * 100 / b;
  mul_add = λ a b c. a * b / 100 + c;
  sqrt = λ a. a;
  epsilon = 1;
  is_nan = λ a. false;
  partial_cmp = λ a b. some (compare a b);
}

flip_lem : (a b : ℕ) → compare b a ≡ swap (compare a b)
flip_lem a b = ground arith

fle_trans_lem : (a b c : ℕ) → fle a b ≡ true → fle b c ≡ true → fle a c ≡ true
fle_trans_lem a b c h k = ground arith

pub hundredths-IsIeee : IsIeee hundredths
hundredths-IsIeee = record {
  comparable = λ a b n m h. cc;
  flip = λ a b. ap some (flip_lem a b);
  fle_trans = fle_trans_lem;
}

abbrev pub Post : Type 0
Post = String

abbrev pub post : String → String → ℕ → Candidate Post ℕ
post item group score = record { item = item; score = score; source = group; group = group }
