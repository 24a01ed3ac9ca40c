-- ===== src/Sys/Operation/Codes.antt =====
-- Opcode bytes and operations correspond one to one.
use rust_io_uring.Prelude.{ℕ, none, some, ◌≤◌, ◌≡◌, ◌↔◌, subst, sym, arith}
use rust_io_uring.Sys.Operation.{Operation, raw_operation, decode_operation}

pub decode-raw_operation : (op : Operation) → decode_operation (raw_operation op) ≡ some op
unfolding decode_operation raw_operation
decode-raw_operation op = ground arith

decode_inverts :
    (raw : ℕ) (op : Operation) → decode_operation raw ≡ some op → raw ≡ raw_operation op
unfolding decode_operation raw_operation
decode_inverts raw op h = ground arith

-- A byte decodes to an operation exactly when it is that operation's opcode.
pub decode_operation_iff :
    (raw : ℕ) (op : Operation) → (decode_operation raw ≡ some op) ↔ (raw ≡ raw_operation op)
decode_operation_iff raw op = (
  decode_inverts raw op,
  λ e. subst (λ r. decode_operation r ≡ some op) (sym e) (decode-raw_operation op),
)

-- The bytes that no operation has are those from 8 on.
pub decode_operation-eq-none : (raw : ℕ) → (decode_operation raw ≡ none) ↔ (8 ≤ raw)
unfolding decode_operation
decode_operation-eq-none raw = ground arith
