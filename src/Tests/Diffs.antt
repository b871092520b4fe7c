-- ===== src/Tests/Diffs.antt =====
-- A diff of two policies, one with another rate limit.
use truebearing.Base.{contains, ◌≡◌, refl, true, none, [], ◌∷◌}
use truebearing.PolicyDiff.{print_diff, Printing, same_string_set}
use truebearing.PolicyDiff.Unseen.{change_policy, print_diff-change_policy, ToolChange}
use truebearing.Tests.World.{test_policy, test_runtime}

abbrev plain_printing : Printing
plain_printing = record { sort_strings = λ names. names; show_money = λ x. "x" }

abbrev unlimited : ToolChange
unlimited = record {
  never_when = λ name. [];
  never_when_match = λ name. "all";
  rate_limit = λ name. none;
}

print_diff-change_policy_example :
    print_diff test_runtime plain_printing test_policy
      (change_policy unlimited "staging" none test_policy)
    ≡ print_diff test_runtime plain_printing test_policy test_policy
print_diff-change_policy_example =
    print_diff-change_policy test_runtime plain_printing unlimited "staging" none test_policy
      test_policy

-- Two lists that are not the same set.
duplicate_is_same : same_string_set ("a" ∷ "b" ∷ []) ("a" ∷ "a" ∷ []) ≡ true
unfolding same_string_set contains
duplicate_is_same = refl
