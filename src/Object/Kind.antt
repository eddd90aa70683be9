-- ===== src/Object/Kind.antt =====
-- The object kinds, `type Kind uint16`, in the order of the source's `iota`. A parsed kind may be
-- any other `uint16` too.
use zephyr_chain.Base.{ℕ}

abbrev pub unknown : ℕ
unknown = 0

abbrev pub coin : ℕ
coin = 1

abbrev pub token_definition : ℕ
token_definition = 2

abbrev pub contract : ℕ
contract = 3

abbrev pub contract_state : ℕ
contract_state = 4

abbrev pub compute_offer : ℕ
compute_offer = 5

abbrev pub compute_job : ℕ
compute_job = 6

abbrev pub compute_assignment : ℕ
compute_assignment = 7

abbrev pub compute_result : ℕ
compute_result = 8

abbrev pub loan_offer : ℕ
loan_offer = 9

abbrev pub loan : ℕ
loan = 10

abbrev pub system : ℕ
system = 11

abbrev pub device_credential : ℕ
device_credential = 12

abbrev pub cross_loan_offer : ℕ
cross_loan_offer = 13

abbrev pub cross_loan_acceptance : ℕ
cross_loan_acceptance = 14

abbrev pub cross_loan_activation : ℕ
cross_loan_activation = 15

abbrev pub cross_loan_repayment : ℕ
cross_loan_repayment = 16
