-- ===== src/Client/Receiver/Cut.antt =====
-- replies/client.c, receiver_thread: a line that arrives in two parts is taken for two lines.
use multi_client_chat_server.Prelude.{
  ◌>>=◌, ℕ, ◌≡◌, ◌≢◌, refl, ap, ◌∙◌, arith, Bool, true, if◌then◌else◌, Option, some, List, [], ◌∷◌,
  ◌++◌, Text, codes, All, All-append,
}
use multi_client_chat_server.Protocol.Tokens.{space}
use multi_client_chat_server.Handler.Lines.{IsWord}
use multi_client_chat_server.Handler.Buffer.{c_string}
use multi_client_chat_server.Handler.Buffer.Stream.{lines_of, add_byte, grow}
use multi_client_chat_server.Display.{Shown, direct}
use multi_client_chat_server.Client.{Terminal, Displayed, strip_line_end, shows}
use multi_client_chat_server.Client.Receiver.{
  show_line, handle_server_line, not_empty, pieces_of, handle_lines, receiver_thread,
}
use multi_client_chat_server.Client.Receiver.Rewind.{strip_line_end-append}
use multi_client_chat_server.Client.Receiver.Shown.{shows_pm}

-- No newline and no NUL.
abbrev pub IsPart : Text → Type 0
IsPart s = All (λ c. (c ≢ b'\n') × (c ≢ 0)) s

pub c_string-part : (s : Text) → IsPart s → c_string s ≡ s
unfolding c_string
c_string-part [] h = refl
c_string-part (c ∷ s) h = ground (arith, c_string-part s h.1, h.0)

pub lines_of-part : (s : Text) → IsPart s → lines_of s ≡ ([], s)
unfolding lines_of add_byte grow
lines_of-part [] h = refl
lines_of-part (c ∷ s) h = ground (arith, lines_of-part s h.1, h.0)

pub lines_of-line : (s : Text) → IsPart s → lines_of (s ++ (b'\n' ∷ [])) ≡ (s ∷ [], [])
unfolding lines_of add_byte grow
lines_of-line [] h = refl
lines_of-line (c ∷ s) h = ground (arith, lines_of-line s h.1, h.0)

pieces_of-part : (c : ℕ) (s : Text) → IsPart (c ∷ s) → pieces_of (c ∷ s) ≡ (c ∷ s) ∷ []
unfolding pieces_of not_empty
pieces_of-part c s h = rw (lines_of-part (c ∷ s) h, pieces_of) refl

handle_lines-one :
    (t : Terminal) (line : Text) {t1 : Terminal} {x : Shown}
    → handle_server_line t line ≡ some (t1, x ∷ [])
    → handle_lines t (line ∷ []) ≡ some (t1, x ∷ [])
unfolding handle_lines
handle_lines-one t line h = rw h refl

shows_part :
    (t : Terminal) (c : ℕ) (w x : Text)
    → IsWord (c ∷ w)
    → strip_line_end x ≡ x
    → handle_server_line t (codes "PM_FROM " ++ ((c ∷ w) ++ (space ∷ x)))
      ≡ some (shows t (direct (c ∷ w) x))
unfolding handle_server_line
shows_part t c w x word clean =
    ap (show_line t) (
      strip_line_end-append (codes "PM_FROM") ((c ∷ w) ++ (space ∷ x))
      ∙ ap (λ z. codes "PM_FROM" ++ (space ∷ z))
          (strip_line_end-append (c ∷ w) x ∙ ap (λ z. (c ∷ w) ++ (space ∷ z)) clean))
    ∙ shows_pm t c w x word

if_true {ℓ} : {A : Type ℓ} {b : Bool} (x y : A) → b ≡ true → (if b then x else y) ≡ x
if_true x y h = rw h refl

-- One call of client_recv whose pieces are shown without a fault.
receiver_thread-chunk :
    (t t1 : Terminal) (out : List Shown) (chunk : Text) (chunks : List Text)
    → t.running ≡ true
    → handle_lines t (pieces_of (c_string chunk)) ≡ some (t1, out)
    → receiver_thread t (chunk ∷ chunks)
      ≡ (do (t2, more) ← receiver_thread t1 chunks; some (t2, out ++ more))
unfolding receiver_thread
receiver_thread-chunk t t1 out chunk chunks run h =
    if_true _ _ run
    ∙ ap
        (λ (r : Option Displayed). (do
          (t1', out') ← r
          (t2, more) ← receiver_thread t1' chunks
          some (t2, out' ++ more)))
        h

-- The bug: receiver_thread keeps nothing from one call of client_recv to the next. When what has arrived
-- ends inside the line of a private message, after the text `x`, the client shows `x` as the message, and
-- handles what arrives next as if it began a line.
pub cut_message :
    (t : Terminal) (c : ℕ) (w x : Text) (chunks : List Text)
    → t.running ≡ true
    → IsWord (c ∷ w)
    → IsPart (c ∷ w)
    → IsPart x
    → strip_line_end x ≡ x
    → receiver_thread t ((codes "PM_FROM " ++ ((c ∷ w) ++ (space ∷ x))) ∷ chunks)
      ≡ (do (t1, out) ← receiver_thread t chunks; some (t1, direct (c ∷ w) x ∷ out))
cut_message t c w x chunks run word inner part clean =
    receiver_thread-chunk t t (direct (c ∷ w) x ∷ []) (codes "PM_FROM " ++ ((c ∷ w) ++ (space ∷ x)))
      chunks run
      (ap (λ z. handle_lines t (pieces_of z)) (c_string-part _ whole)
        ∙ ap (handle_lines t) (pieces_of-part b'P' _ whole)
        ∙ handle_lines-one t _ (shows_part t c w x word clean))
  where
    whole : IsPart (codes "PM_FROM " ++ ((c ∷ w) ++ (space ∷ x)))
    whole =
        All-append (λ c. (c ≢ b'\n') × (c ≢ 0)) (codes "PM_FROM ") ((c ∷ w) ++ (space ∷ x))
          (omega arith)
          (All-append (λ c. (c ≢ b'\n') × (c ≢ 0)) (c ∷ w) (space ∷ x) inner
            ((omega arith, omega arith), part))
