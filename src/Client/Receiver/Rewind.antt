-- ===== src/Client/Receiver/Rewind.antt =====
-- replies/client.c: a list that comes without page numbers is shown up to its first entry.
use multi_client_chat_server.Prelude.{
  ◌>>=◌, ℕ, ◌≡◌, ◌≢◌, refl, sym, ap, ◌∙◌, arith, false, Option, none, some, [], ◌∷◌, ◌++◌, Text,
  codes, text_eq, All,
}
use multi_client_chat_server.Protocol.Tokens.{space, strtok, skip_spaces, split_word, word_of}
use multi_client_chat_server.Protocol.Number.{is_numeral}
use multi_client_chat_server.Handler.Lines.{IsWord, strtok-append}
use multi_client_chat_server.Client.{Terminal, strip_line_end, first_word, up_to_nul}
use multi_client_chat_server.Client.Listings.{
  header, paging, rewound, list_who, list_rooms, show_who, show_rooms,
}
use multi_client_chat_server.Client.Receiver.{show_reply, show_line, handle_server_line}

-- No newline and no carriage return.
abbrev pub IsInner : Text → Type 0
IsInner s = All (λ c. (c ≢ b'\n') × (c ≢ b'\r')) s

pub strip_line_end-append :
    (s u : Text) → strip_line_end (s ++ (space ∷ u)) ≡ s ++ (space ∷ strip_line_end u)
unfolding strip_line_end
strip_line_end-append [] u = after_space (strip_line_end u)
  where
    after_space : (t : Text) → elim t [ [] ↦ space ∷ [] | x ∷ xs ↦ space ∷ (x ∷ xs) ] ≡ space ∷ t
    after_space [] = refl
    after_space (x ∷ xs) = refl
strip_line_end-append (c ∷ []) u = rw (strip_line_end-append [] u) refl
strip_line_end-append (c ∷ (d ∷ s)) u = rw (strip_line_end-append (d ∷ s) u) refl

pub strip_line_end-inner : (s : Text) → IsInner s → strip_line_end s ≡ s
unfolding strip_line_end
strip_line_end-inner [] h = refl
strip_line_end-inner (c ∷ []) h = ground arith
strip_line_end-inner (c ∷ (d ∷ s)) h = rw (strip_line_end-inner (d ∷ s) h.1) refl

header-none :
    (w : Text) (b c rest : Option Text)
    → is_numeral w ≡ false
    → (do b' ← b; c' ← c; header w b' c' rest) ≡ none
unfolding header
header-none w none c rest h = refl
header-none w (some b) none rest h = refl
header-none w (some b) (some c) rest h = rw h refl

paging-words :
    (rest rest1 : Option Text) (w : Text)
    → strtok rest ≡ (some w, rest1)
    → is_numeral w ≡ false
    → paging rest ≡ none
unfolding paging
paging-words rest rest1 w e h =
    rw (e, paging)
      (header-none w (strtok rest1).0 (strtok (strtok rest1).1).0 (strtok (strtok rest1).1).1 h)

split_word-word : (w : Text) → IsWord w → split_word w ≡ (w, none)
unfolding split_word
split_word-word [] h = refl
split_word-word (c ∷ w) h = ground (arith, split_word-word w h.1, h.0)

-- The last word of a text.
pub strtok-word : (c : ℕ) (w : Text) → IsWord (c ∷ w) → strtok (some (c ∷ w)) ≡ (some (c ∷ w), none)
unfolding strtok skip_spaces word_of
strtok-word c w h = ground (arith, split_word-word (c ∷ w) h, h.0)

first_word-append : (w u : Text) → IsWord w → first_word (w ++ (space ∷ u)) ≡ w
unfolding first_word
first_word-append [] u h = refl
first_word-append (c ∷ w) u h = ground (arith, first_word-append w u h.1, h.0)

first_word-word : (w : Text) → IsWord w → first_word w ≡ w
unfolding first_word
first_word-word [] h = refl
first_word-word (c ∷ w) h = ground (arith, first_word-word w h.1, h.0)

up_to_nul-append :
    (c : ℕ) (w u : Text) → IsWord (c ∷ w) → up_to_nul ((c ∷ w) ++ (space ∷ u)) ≡ c ∷ w
unfolding up_to_nul first_word
up_to_nul-append c w u h = ground (arith, first_word-append w u h.1, h.0)

up_to_nul-word : (c : ℕ) (w : Text) → IsWord (c ∷ w) → up_to_nul (c ∷ w) ≡ c ∷ w
unfolding up_to_nul first_word
up_to_nul-word c w h = ground (arith, first_word-word w h.1, h.0)

show_who-unpaged :
    (t : Terminal) (rest : Option Text)
    → paging rest ≡ none
    → show_who t rest ≡ list_who t (rewound rest)
unfolding show_who list_who
show_who-unpaged t rest h = rw (h, show_who) refl

show_rooms-unpaged :
    (t : Terminal) (rest : Option Text)
    → paging rest ≡ none
    → show_rooms t rest ≡ list_rooms t (rewound rest)
unfolding show_rooms list_rooms
show_rooms-unpaged t rest h = rw (h, show_rooms) refl

module _ (t : Terminal) (c : ℕ) (w u : Text) (word : IsWord (c ∷ w)) where
  rewound_first : rewound (some ((c ∷ w) ++ (space ∷ u))) ≡ rewound (some (c ∷ w))
  unfolding rewound
  rewound_first = ap some (up_to_nul-append c w u word ∙ sym (up_to_nul-word c w word))

  module _ (name : is_numeral (c ∷ w) ≡ false) where
    unpaged : (paging (some ((c ∷ w) ++ (space ∷ u))) ≡ none) × (paging (some (c ∷ w)) ≡ none)
    unpaged = (
      paging-words (some ((c ∷ w) ++ (space ∷ u))) (some u) (c ∷ w) (strtok-append c w u word) name,
      paging-words (some (c ∷ w)) none (c ∷ w) (strtok-word c w word) name,
    )

    who_first : show_who t (some ((c ∷ w) ++ (space ∷ u))) ≡ show_who t (some (c ∷ w))
    who_first =
        show_who-unpaged t (some ((c ∷ w) ++ (space ∷ u))) unpaged.0
        ∙ ap (list_who t) rewound_first
        ∙ sym (show_who-unpaged t (some (c ∷ w)) unpaged.1)

    rooms_first : show_rooms t (some ((c ∷ w) ++ (space ∷ u))) ≡ show_rooms t (some (c ∷ w))
    rooms_first =
        show_rooms-unpaged t (some ((c ∷ w) ++ (space ∷ u))) unpaged.0
        ∙ ap (list_rooms t) rewound_first
        ∙ sym (show_rooms-unpaged t (some (c ∷ w)) unpaged.1)

line_who :
    (t : Terminal) (c : ℕ) (s : Text)
    → show_line t (codes "WHO_REPLY " ++ (c ∷ s)) ≡ show_who t (some (c ∷ s))
unfolding show_line show_reply strtok split_word skip_spaces word_of text_eq
line_who t c s = refl

line_rooms :
    (t : Terminal) (c : ℕ) (s : Text)
    → show_line t (codes "ROOMS_REPLY " ++ (c ∷ s)) ≡ show_rooms t (some (c ∷ s))
unfolding show_line show_reply strtok split_word skip_spaces word_of text_eq
line_rooms t c s = refl

-- The bug: strtok_r has written a NUL behind the first entry when the client goes back to the start of the
-- list. A WHO or ROOMS reply without page numbers, whose first entry is no number, is shown as if the first
-- entry were the only one, whatever follows it.
pub lists_show_first :
    (t : Terminal) (c : ℕ) (w u : Text)
    → IsWord (c ∷ w)
    → IsInner (c ∷ w)
    → is_numeral (c ∷ w) ≡ false
    → (handle_server_line t (codes "WHO_REPLY " ++ ((c ∷ w) ++ (space ∷ u)))
        ≡ handle_server_line t (codes "WHO_REPLY " ++ (c ∷ w)))
      × (handle_server_line t (codes "ROOMS_REPLY " ++ ((c ∷ w) ++ (space ∷ u)))
          ≡ handle_server_line t (codes "ROOMS_REPLY " ++ (c ∷ w)))
unfolding handle_server_line
lists_show_first t c w u word inner name =
    let v = strip_line_end u in
    (
      rw
          (
            strip_line_end-append (codes "WHO_REPLY " ++ (c ∷ w)) u,
            strip_line_end-append (codes "WHO_REPLY") (c ∷ w),
            strip_line_end-inner (c ∷ w) inner,
          )
          (line_who t c (w ++ (space ∷ v)) ∙ who_first t c w v word name ∙ sym (line_who t c w)),
      rw
          (
            strip_line_end-append (codes "ROOMS_REPLY " ++ (c ∷ w)) u,
            strip_line_end-append (codes "ROOMS_REPLY") (c ∷ w),
            strip_line_end-inner (c ∷ w) inner,
          )
          (line_rooms t c (w ++ (space ∷ v))
            ∙ rooms_first t c w v word name
            ∙ sym (line_rooms t c w)),
    )
