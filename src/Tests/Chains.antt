-- ===== src/Tests/Chains.antt =====
-- The chain theorems at concrete chains.
use Prim.Native.String.{◌++◌ as ◌<>◌}
use nexum.Prelude.{◌≡◌, refl, ◌⊎◌, [], ◌∷◌, ◌++◌}
use nexum.Receipt.{Receipt, next_receipt, hash_receipt, verify_receipts}
use nexum.Receipt.Tamper.{Clash, SameTexts, tail_binds_history, rewrite_unseen}
use nexum.Tests.Setup.{test_std, test_std_width}

abbrev first : Receipt
first = next_receipt test_std "a1" [] "alice" "open" "opened" 10

abbrev rewritten : Receipt
rewritten = next_receipt test_std "a1" [] "alice" "open" "other" 20

tail_binds_history_example :
    Clash test_std "a1" (first ∷ []) (rewritten ∷ [])
    ⊎ SameTexts test_std "a1" (first ∷ []) (rewritten ∷ [])
unfolding verify_receipts next_receipt hash_receipt
tail_binds_history_example =
    tail_binds_history test_std "a1" test_std_width (first ∷ []) (rewritten ∷ []) refl refl refl
      refl

rewrite_unseen_example :
    verify_receipts test_std "a1"
      ([] ++ record first { actor = "al" <> "|" <> "ice"; note = "n" } ∷ [])
    ≡ verify_receipts test_std "a1"
        ([] ++ record first { actor = "al"; note = "ice" <> "|" <> "n" } ∷ [])
rewrite_unseen_example = rewrite_unseen test_std "a1" [] [] first "al" "ice" "n"
