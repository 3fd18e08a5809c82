-- ===== src/Server.antt =====
-- src/server.c: conn_send on a plain connection, and the periodic calls of the event loop.
pub mod Sending
mod Tests
use multi_client_chat_server.Prelude.{
  ℕ, zero, suc, ◌+◌, ◌≤◌, ◌≡◌, refl, ap, ◌∙◌, arith, ℤ, pos, negsuc, Option, none, some, List, [],
  ◌∷◌, ◌++◌, append-nil, append_assoc, Text, leb, ◌==◌, if◌then◌else◌, length, length-append, take,
  drop,
}
use multi_client_chat_server.ThreadPool.{Pool, threadpool_maybe_shrink}
use multi_client_chat_server.Presence.{TypingState, presence_cleanup_stale}

-- What `send` returns: a number of bytes, or -1 with EINTR, with EAGAIN, or with another error.
pub data SendResult : Type 0 where
  wrote : ℕ → SendResult
  interrupted : SendResult
  again : SendResult
  failed : SendResult

abbrev minus_one : ℤ
minus_one = negsuc 0

-- Where the peer has closed: the number of bytes so far, or -1 if there are none.
abbrev total_or_fail : Text → ℤ
total_or_fail [] = minus_one
total_or_fail (c ∷ s) = pos (length (c ∷ s))

-- The loop: the bytes already sent, the rest, and the results of the calls of `send` to come. The bytes
-- given to the kernel and the value returned; no result: the loop has not ended with these calls.
pub send_loop : Text → Text → List SendResult → Option (Text × ℤ)
send_loop sent [] results = some (sent, pos (length sent))
send_loop sent (c ∷ rest) [] = none
send_loop sent (c ∷ rest) (wrote zero ∷ results) = some (sent, total_or_fail sent)
send_loop sent (c ∷ rest) (wrote (suc n) ∷ results) =
    send_loop (sent ++ (c ∷ take n rest)) (drop n rest) results
send_loop sent (c ∷ rest) (interrupted ∷ results) = send_loop sent (c ∷ rest) results
send_loop sent (c ∷ rest) (again ∷ results) = send_loop sent (c ∷ rest) results
send_loop sent (c ∷ rest) (failed ∷ results) = some (sent, minus_one)

pub conn_send : Text → List SendResult → Option (Text × ℤ)
unfolding send_loop
conn_send buf results = send_loop [] buf results

-- What is made of the time at which epoll_wait returned.
pub record Checks : Type 0 where
  pub last_shrink_check : ℕ
  pub last_presence_cleanup : ℕ

-- The shrink of the pool, at most every 5 seconds.
pub shrink_check : ℕ → Checks → Pool → Checks × Pool
shrink_check now k p =
    if leb (k.last_shrink_check + 5) now
    then (record k { last_shrink_check = now }, threadpool_maybe_shrink p)
    else (k, p)

-- The cleanup of the typing indicators, at most every 5 seconds.
pub presence_check : ℕ → Checks → List TypingState → Checks × List TypingState
presence_check now k typists =
    if leb (k.last_presence_cleanup + 5) now
    then (record k { last_presence_cleanup = now }, (presence_cleanup_stale now typists).0)
    else (k, typists)
