-- ===== src/Server/Sending.antt =====
-- src/server.c, conn_send: what reaches the kernel, and when the loop ends.
use multi_client_chat_server.Prelude.{
  ℕ, zero, suc, ◌≤◌, ◌≡◌, refl, ap, subst, ◌∙◌, arith, ◌⊎◌, inl, inr, ℤ, pos, negsuc, Option, some,
  List, [], ◌∷◌, ◌++◌, append-nil, append_assoc, Text, length, take, drop,
}
use multi_client_chat_server.Server.{
  SendResult, wrote, interrupted, again, failed, total_or_fail, send_loop, conn_send,
}

take-drop : (n : ℕ) (s : Text) → take n s ++ drop n s ≡ s
take-drop zero s = refl
take-drop (suc n) [] = refl
take-drop (suc n) (c ∷ s) = ap (◌∷◌ c) (take-drop n s)

length-drop-le : (n : ℕ) (s : Text) → length (drop n s) ≤ length s
length-drop-le zero s = omega arith
length-drop-le (suc n) [] = omega arith
length-drop-le (suc n) (c ∷ s) = omega (arith, length-drop-le n s)

-- The bytes sent are the first of the buffer, and the value returned is their number or -1.
abbrev pub SentPrefix : Text → Text → ℤ → Type 0
SentPrefix buf out r =
    (rest : Text) × (out ++ rest ≡ buf) × ((r ≡ pos (length out)) ⊎ (r ≡ negsuc 0))

result-inj :
    (s t : Text) (m n : ℤ)
    → ◌≡◌ {A = Option (Text × ℤ)} (some (s, m)) (some (t, n))
    → (s ≡ t) × (m ≡ n)
result-inj s t m n e = (cc, cc)

returned :
    (sent rest out : Text) (value r : ℤ)
    → (value ≡ pos (length sent)) ⊎ (value ≡ negsuc 0)
    → ◌≡◌ {A = Option (Text × ℤ)} (some (sent, value)) (some (out, r))
    → SentPrefix (sent ++ rest) out r
returned sent rest out value r h e =
    let (same, count) = result-inj sent out value r e in
    subst (λ z. SentPrefix (sent ++ rest) z r) same
      (subst (λ z. SentPrefix (sent ++ rest) sent z) count (rest, refl, h))

total_or_fail-cases : (s : Text) → (total_or_fail s ≡ pos (length s)) ⊎ (total_or_fail s ≡ negsuc 0)
total_or_fail-cases [] = inr refl
total_or_fail-cases (c ∷ s) = inl refl

send_loop-prefix :
    (sent buf : Text) (results : List SendResult) (out : Text) (r : ℤ)
    → send_loop sent buf results ≡ some (out, r)
    → SentPrefix (sent ++ buf) out r
unfolding send_loop
send_loop-prefix sent [] results out r e = returned sent [] out (pos (length sent)) r (inl refl) e
send_loop-prefix sent (c ∷ rest) [] out r e = cc
send_loop-prefix sent (c ∷ rest) (wrote zero ∷ results) out r e =
    returned sent (c ∷ rest) out (total_or_fail sent) r (total_or_fail-cases sent) e
send_loop-prefix sent (c ∷ rest) (wrote (suc n) ∷ results) out r e =
    let (left, whole, counted) =
      send_loop-prefix (sent ++ (c ∷ take n rest)) (drop n rest) results out r e in
    (
      left,
      whole
          ∙ append_assoc sent (c ∷ take n rest) (drop n rest)
          ∙ ap (λ z. sent ++ (c ∷ z)) (take-drop n rest),
      counted,
    )
send_loop-prefix sent (c ∷ rest) (interrupted ∷ results) out r e =
    send_loop-prefix sent (c ∷ rest) results out r e
send_loop-prefix sent (c ∷ rest) (again ∷ results) out r e =
    send_loop-prefix sent (c ∷ rest) results out r e
send_loop-prefix sent (c ∷ rest) (failed ∷ results) out r e =
    returned sent (c ∷ rest) out (negsuc 0) r (inr refl) e

-- The calls of `send` that write something.
unfoldable pub writes : List SendResult → ℕ
writes [] = 0
writes (wrote zero ∷ results) = writes results
writes (wrote (suc n) ∷ results) = suc (writes results)
writes (other ∷ results) = writes results

-- No call that ends the loop early.
unfoldable pub NeverFails : List SendResult → Type 0
NeverFails [] = Unit
NeverFails (wrote zero ∷ results) = ⊥
NeverFails (wrote (suc n) ∷ results) = NeverFails results
NeverFails (interrupted ∷ results) = NeverFails results
NeverFails (again ∷ results) = NeverFails results
NeverFails (failed ∷ results) = ⊥

send_loop-total :
    (sent buf : Text) (results : List SendResult)
    → NeverFails results
    → length buf ≤ writes results
    → send_loop sent buf results ≡ some (sent ++ buf, pos (length (sent ++ buf)))
unfolding send_loop NeverFails writes
send_loop-total sent [] results ok enough = rw (append-nil sent) refl
send_loop-total sent (c ∷ rest) [] ok enough = absurd (omega arith)
send_loop-total sent (c ∷ rest) (wrote zero ∷ results) ok enough = absurd ok
send_loop-total sent (c ∷ rest) (wrote (suc n) ∷ results) ok enough =
    let whole : (sent ++ (c ∷ take n rest)) ++ drop n rest ≡ sent ++ (c ∷ rest) =
      append_assoc sent (c ∷ take n rest) (drop n rest)
      ∙ ap (λ z. sent ++ (c ∷ z)) (take-drop n rest) in
    send_loop-total (sent ++ (c ∷ take n rest)) (drop n rest) results ok
      (omega (arith, length-drop-le n rest))
    ∙ ap (λ z. some (z, pos (length z))) whole
send_loop-total sent (c ∷ rest) (interrupted ∷ results) ok enough =
    send_loop-total sent (c ∷ rest) results ok enough
send_loop-total sent (c ∷ rest) (again ∷ results) ok enough =
    send_loop-total sent (c ∷ rest) results ok enough
send_loop-total sent (c ∷ rest) (failed ∷ results) ok enough = absurd ok

-- Whatever the calls of `send` return: when conn_send ends, the bytes that reached the kernel are the first
-- of the buffer, each once and in order, and the value returned is their number or -1.
pub conn_send-prefix :
    (buf out : Text) (results : List SendResult) (r : ℤ)
    → conn_send buf results ≡ some (out, r)
    → SentPrefix buf out r
unfolding conn_send
conn_send-prefix buf out results r e = send_loop-prefix [] buf results out r e

-- Where no call of `send` fails or writes nothing, as many writes as the buffer has bytes are enough, however
-- short each is and however often EINTR and EAGAIN come between: conn_send ends, has sent the whole buffer,
-- and returns its length.
pub conn_send-total :
    (buf : Text) (results : List SendResult)
    → NeverFails results
    → length buf ≤ writes results
    → conn_send buf results ≡ some (buf, pos (length buf))
unfolding conn_send
conn_send-total buf results ok enough = send_loop-total [] buf results ok enough
