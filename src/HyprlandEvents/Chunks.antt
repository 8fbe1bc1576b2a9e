-- ===== src/HyprlandEvents/Chunks.antt =====
-- crates/tsk-core/src/hyprland_events.rs: the events of a stream that is read in chunks.
use hypr_taskspace.Prelude.{
  ℕ, List, [], ◌∷◌, ◌++◌, map, ◌≡◌, refl, sym, ap, ◌∙◌, Bool-cases, inl, inr, ◌==◌, ℕ_eq,
}
use hypr_taskspace.Prelude.Text.{Text}
use hypr_taskspace.HyprlandEvents.{add_char, take_lines, read_chunks, events_of}

abbrev pub join_chunks : List (List ℕ) → List ℕ
join_chunks [] = []
join_chunks (chunk ∷ chunks) = chunk ++ join_chunks chunks

append_assoc : (xs ys zs : Text) → (xs ++ ys) ++ zs ≡ xs ++ (ys ++ zs)
append_assoc [] ys zs = refl
append_assoc (x ∷ xs) ys zs = ap (λ r. x ∷ r) (append_assoc xs ys zs)

append_nil : (xs : Text) → xs ++ [] ≡ xs
append_nil [] = refl
append_nil (x ∷ xs) = ap (λ r. x ∷ r) (append_nil xs)

add_char-rest :
    (c : ℕ) (p : List Text × Text)
    → take_lines p.1 ≡ ([], p.1)
    → take_lines (add_char c p).1 ≡ ([], (add_char c p).1)
unfolding take_lines
add_char-rest c ([], rest) h = elim (Bool-cases (c == 10)) [
  | inl newline ↦ rw newline h
  | inr other ↦ rw (other, take_lines, h, other)
]
add_char-rest c (line ∷ lines, rest) h = elim (Bool-cases (c == 10)) [
  | inl newline ↦ rw newline h
  | inr other ↦ rw other h
]

-- What stays in the buffer has no complete line.
take_lines-rest : (s : Text) → take_lines (take_lines s).1 ≡ ([], (take_lines s).1)
unfolding take_lines
take_lines-rest [] = refl
take_lines-rest (c ∷ s) = add_char-rest c (take_lines s) (take_lines-rest s)

-- Lines, and those of the rest with more text behind it.
abbrev go_on : List Text × Text → Text → List Text × Text
go_on p t = (p.0 ++ (take_lines (p.1 ++ t)).0, (take_lines (p.1 ++ t)).1)

add_char-go_on :
    (c : ℕ) (p : List Text × Text) (t : Text) → add_char c (go_on p t) ≡ go_on (add_char c p) t
unfolding take_lines
add_char-go_on c ([], rest) t = elim (Bool-cases (c == 10)) [
  | inl newline ↦ rw newline
  | inr other ↦ rw (other, take_lines, other)
]
add_char-go_on c (line ∷ lines, rest) t = elim (Bool-cases (c == 10)) [
  | inl newline ↦ rw newline
  | inr other ↦ rw other
]

take_lines-append : (s t : Text) → take_lines (s ++ t) ≡ go_on (take_lines s) t
unfolding take_lines
take_lines-append [] t = refl
take_lines-append (c ∷ s) t =
    ap (add_char c) (take_lines-append s t) ∙ add_char-go_on c (take_lines s) t

read_chunks-join :
    (decode : List ℕ → Text) (buf : Text) (chunks : List (List ℕ))
    → take_lines buf ≡ ([], buf)
    → read_chunks decode buf chunks ≡ take_lines (buf ++ join_chunks (map decode chunks))
unfolding read_chunks
read_chunks-join decode buf [] whole = sym (ap take_lines (append_nil buf) ∙ whole)
read_chunks-join decode buf (chunk ∷ chunks) whole =
    let text = decode chunk in
    let here = take_lines (buf ++ text) in
    let ih = read_chunks-join decode here.1 chunks (take_lines-rest (buf ++ text)) in
    let more = join_chunks (map decode chunks) in
    rw ih (sym (take_lines-append (buf ++ text) more) ∙ ap take_lines (append_assoc buf text more))

-- If no read cuts a character in two, so that the chunks decoded one by one are the stream decoded
-- as a whole, the events are those of the complete lines of the decoded stream, whatever trim
-- does.
pub events-chunks :
    (decode : List ℕ → Text) (trim : Text → Text) (chunks : List (List ℕ))
    → join_chunks (map decode chunks) ≡ decode (join_chunks chunks)
    → events_of trim (read_chunks decode [] chunks).0
      ≡ events_of trim (take_lines (decode (join_chunks chunks))).0
unfolding take_lines
events-chunks decode trim chunks whole =
    ap (λ r. events_of trim r.0) (read_chunks-join decode [] chunks refl)
    ∙ ap (λ text. events_of trim (take_lines text).0) whole
