-- ===== src/Tests/Batches.antt =====
-- A batch of two signatures under the keys of the secrets 3 and 4.
use go_frost.Common.{ℕ, ◌≡◌, ◌↔◌, refl, [], ◌∷◌}
use go_frost.Errors.{Result, ok}
use go_frost.Bytes.{Bytes}
use go_frost.Signing.Aggregator.{verify}
use go_frost.Signing.Batch.Accepted.{
  Signed, IsVerified, verify_all_signed, verify_batch-verified, verify_batch-verify,
}
use go_frost.Signing.Challenge.{compute_challenge}
use go_frost.Signing.Honest.{session_challenge}
use go_frost.Tests.Toy.{F7, f0, f1, f2, f3, f4, f5, toy, suite, add}
use go_frost.Tests.ToyLaws.{laws}
use go_frost.Tests.Sessions.{apart}

abbrev signed : F7 → F7 → Bytes → Signed suite
signed k r m = record {
  secret = k;
  nonce = r;
  response = toy.add r (toy.mul k (session_challenge suite k r m));
  message = m;
}

abbrev one_signed : Signed suite
one_signed = signed f3 f2 (9 ∷ [])

abbrev other_signed : Signed suite
other_signed = signed f4 f5 (8 ∷ [])

-- The response is not the right one.
abbrev forged : Signed suite
forged = record one_signed { response = add one_signed.response f1 }

one_signed-IsVerified : IsVerified suite one_signed
unfolding verify compute_challenge
one_signed-IsVerified = refl

other_signed-IsVerified : IsVerified suite other_signed
unfolding verify compute_challenge
other_signed-IsVerified = refl

abbrev blind : ℕ → F7
blind i = f5

abbrev draws : ℕ → Result F7
draws i = ok f5

verify_batch-verified_example :
    verify_all_signed suite draws (one_signed ∷ other_signed ∷ []) ≡ ok tt
verify_batch-verified_example =
    verify_batch-verified suite laws draws blind one_signed (other_signed ∷ []) (λ j. refl)
      (one_signed-IsVerified, (other_signed-IsVerified, tt))

verify_batch-verify_example :
    (verify_all_signed suite draws (other_signed ∷ forged ∷ []) ≡ ok tt) ↔ IsVerified suite forged
verify_batch-verify_example =
    verify_batch-verify suite laws draws blind (other_signed ∷ []) forged [] (λ j. refl)
      (other_signed-IsVerified, tt) tt (apart f3 f0 refl) (apart f2 f0 refl)
      (apart (session_challenge suite f3 f2 (9 ∷ [])) f0 refl) (apart f5 f0 refl)
