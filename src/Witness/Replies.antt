-- ===== src/Witness/Replies.antt =====
-- Replies of the service, and cancellation.
use virtualdisk.Prelude.{◌+◌, ◌≡◌, refl, [], ◌∷◌, arith, take}
use virtualdisk.Memory.{contents}
use virtualdisk.Packet.Ownership.{owned}
use virtualdisk.Packet.Locks.{IsBalanced}
use virtualdisk.Packet.Order.{line}
use virtualdisk.Reply.{answer, reply_to_pdo}
use virtualdisk.Reply.Outcome.{answer_read}
use virtualdisk.Reply.Flow.{reply-IsHeld, reply-line}
use virtualdisk.Reply.Cancel.{cancel_current_irp, cancel_keeps_current}
use virtualdisk.Witness.Data.{sample_kernel, sample-IsCsq, read_irp, busy_pdo, busy_io, ok_reply}

reply-line_example : line busy_io ≡ 1 ∷ line (reply_to_pdo sample_kernel busy_io ok_reply)
reply-line_example =
    reply-line sample_kernel sample-IsCsq busy_io ok_reply read_irp refl (λ calls. refl)

reply-IsHeld_example : IsBalanced (reply_to_pdo sample_kernel busy_io ok_reply)
reply-IsHeld_example = reply-IsHeld sample_kernel sample-IsCsq 0 busy_io ok_reply refl

answer_read_example :
    take 3 (contents (answer busy_pdo ok_reply read_irp).1.srb.data_buffer) ≡ 11 ∷ 12 ∷ 13 ∷ []
answer_read_example =
    (answer_read busy_pdo ok_reply read_irp refl refl refl (omega arith) (omega arith)).0

cancel_keeps_current_example :
    owned 1 (reply_to_pdo sample_kernel (cancel_current_irp busy_io read_irp) ok_reply)
    ≡ owned 1 busy_io + 1
cancel_keeps_current_example =
    cancel_keeps_current sample_kernel sample-IsCsq busy_io read_irp ok_reply refl refl
