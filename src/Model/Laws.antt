-- ===== src/Model/Laws.antt =====
-- The operator of a condition.
use j_harness.Base.{ℕ, ◌+◌, ◌≡◌, ◌≢◌, ◌↔◌, Bool, true, false, arith, is_empty, not}
use j_harness.Model.{Condition, no_operator, operator, is_set, is_cons}

abbrev bit : Bool → ℕ
bit true = 1
bit false = 0

-- How many of the five operator fields of a condition are set.
abbrev pub populated : {F : Type 0} → Condition F → ℕ
populated c =
    bit (is_set c.equals)
    + bit (is_set c.not_equals)
    + bit (is_cons c.among)
    + bit (not (is_empty c.matches))
    + bit c.exists

-- A condition has an operator exactly when one and only one of its operator fields is set.
pub operator-ne-no_operator :
    {F : Type 0} (c : Condition F) → (operator c ≢ no_operator) ↔ (populated c ≡ 1)
unfolding operator
operator-ne-no_operator c = (λ h. ground arith, λ h. ground arith)
