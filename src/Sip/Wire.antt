-- ===== src/Sip/Wire.antt =====
-- The head of a message, taken apart into its lines.
use modem2sip.Common.{
  ℕ, ◌≡◌, refl, sym, ap, ◌∙◌, arith, Bool, true, false, ◌||◌, not, List, [], ◌∷◌, ◌++◌, ◌==◌, All,
  append_assoc, append-nil,
}
use modem2sip.Text.{Text}
use modem2sip.Text.Ops.{starts_with, split, split_items}
use modem2sip.Text.Words.{replace_crlf, cons_item, crlf_items, split_crlf}
use modem2sip.Sip.Headers.{Target}
use modem2sip.Sip.Message.{
  crlf, later_line, later_lines, joined_lines, unfold_head, non_empty_lines,
}
use modem2sip.Sip.Encode.{with_line_ends}
use modem2sip.Sip.Lines.{has_break, crlf_items-cons, crlf_items-line}

-- A line that does not continue the one before it.
abbrev pub starts_plain : Text → Bool
starts_plain [] = false
starts_plain (c ∷ l) = not (c == b' ' || c == 9)

abbrev pub IsLine : Text → Type 0
IsLine l = (has_break l ≡ false) × (starts_plain l ≡ true)

-- The lines with CRLF between them.
abbrev pub joined : Text → List Text → Text
joined l [] = l
joined l (m ∷ ls) = l ++ (crlf ++ joined m ls)

pub with_line_ends-joined :
    (target : Target) (l : Text) (ls : List Text)
    → with_line_ends target (l ∷ ls) ≡ joined l ls ++ crlf
unfolding with_line_ends
with_line_ends-joined target l [] = ap (◌++◌ l) (append-nil crlf)
with_line_ends-joined target l (m ∷ ls) =
    ap (λ (s : Text). l ++ (crlf ++ s)) (with_line_ends-joined target m ls)
    ∙ sym (append_assoc l (crlf ++ joined m ls) crlf)

replace_crlf-cons :
    (c : ℕ) (t : Text) → (c == 13) ≡ false → replace_crlf (c ∷ t) ≡ c ∷ replace_crlf t
unfolding replace_crlf
replace_crlf-cons c [] plain = refl
replace_crlf-cons c (d ∷ t) plain = rw plain

replace_crlf-line :
    (l s : Text) → has_break l ≡ false → replace_crlf (l ++ (crlf ++ s)) ≡ l ++ 10 ∷ replace_crlf s
unfolding replace_crlf
replace_crlf-line [] s h = refl
replace_crlf-line (c ∷ l) s h =
    replace_crlf-cons c (l ++ (crlf ++ s)) (ground (arith, h))
    ∙ ap (◌∷◌ c) (replace_crlf-line l s (ground (arith, h)))

replace_crlf_id : (l : Text) → has_break l ≡ false → replace_crlf l ≡ l
unfolding replace_crlf
replace_crlf_id [] h = refl
replace_crlf_id (c ∷ l) h =
    replace_crlf-cons c l (ground (arith, h)) ∙ ap (◌∷◌ c) (replace_crlf_id l (ground (arith, h)))

split_items-line :
    (l s : Text) → has_break l ≡ false → split_items 10 (l ++ 10 ∷ s) ≡ (l, split 10 s)
unfolding split_items split
split_items-line [] s h = refl
split_items-line (c ∷ l) s h =
    let other : (c == 10) ≡ false = ground (arith, h) in
    rw (other, split_items-line l s (ground (arith, h)))

split_items_id : (l : Text) → has_break l ≡ false → split_items 10 l ≡ (l, [])
unfolding split_items
split_items_id [] h = refl
split_items_id (c ∷ l) h =
    let other : (c == 10) ≡ false = ground (arith, h) in
    rw (other, split_items_id l (ground (arith, h)))

split-replace_crlf :
    (l : Text) (ls : List Text)
    → IsLine l
    → All IsLine ls
    → split 10 (replace_crlf (joined l ls)) ≡ l ∷ ls
unfolding split
split-replace_crlf l [] h hs = rw (replace_crlf_id l (h.0), split_items_id l (h.0))
split-replace_crlf l (m ∷ ls) h hs =
    rw
      (
        replace_crlf-line l (joined m ls) (h.0),
        split_items-line l (replace_crlf (joined m ls)) (h.0),
      )
      (ap (◌∷◌ l) (split-replace_crlf m ls (hs.0) (hs.1)))

later_line-plain : (l : Text) → starts_plain l ≡ true → later_line l ≡ crlf ++ l
unfolding later_line starts_with
later_line-plain [] h = refl
later_line-plain (c ∷ l) h =
    let no_space : (c == b' ') ≡ false = ground (arith, h) in
    let no_tab : (c == 9) ≡ false = ground (arith, h) in rw (no_space, no_tab)

later_lines-joined :
    (l m : Text) (ls : List Text)
    → IsLine m
    → All IsLine ls
    → l ++ later_lines (m ∷ ls) ≡ joined l (m ∷ ls)
unfolding later_lines
later_lines-joined l m [] h hs = ap (◌++◌ l) (append-nil (later_line m) ∙ later_line-plain m (h.1))
later_lines-joined l m (n ∷ ls) h hs = ap (◌++◌ l) (
    ap (λ (s : Text). s ++ later_lines (n ∷ ls)) (later_line-plain m (h.1))
    ∙ ap (◌++◌ crlf) (later_lines-joined m n ls (hs.0) (hs.1)))

joined_lines-joined :
    (l : Text) (ls : List Text) → All IsLine ls → joined_lines (l ∷ ls) ≡ joined l ls
unfolding later_lines
joined_lines-joined l [] hs = append-nil l
joined_lines-joined l (m ∷ ls) hs = later_lines-joined l m ls (hs.0) (hs.1)

crlf_items_id : (t : Text) → has_break t ≡ false → crlf_items t ≡ (t, [])
unfolding crlf_items
crlf_items_id [] k = refl
crlf_items_id (c ∷ t) k =
    crlf_items-cons c t (ground (arith, k)) ∙ ap (cons_item c) (crlf_items_id t (ground (arith, k)))

split_crlf-joined :
    (l : Text) (ls : List Text) → IsLine l → All IsLine ls → split_crlf (joined l ls) ≡ l ∷ ls
unfolding split_crlf
split_crlf-joined l [] h hs = rw (crlf_items_id l (h.0))
split_crlf-joined l (m ∷ ls) h hs =
    rw (crlf_items-line l (joined m ls) (h.0)) (ap (◌∷◌ l) (split_crlf-joined m ls (hs.0) (hs.1)))

non_empty_lines_id : (ls : List Text) → All IsLine ls → non_empty_lines ls ≡ ls
unfolding non_empty_lines
non_empty_lines_id [] hs = refl
non_empty_lines_id ([] ∷ ls) hs = ground (arith, hs.0.1)
non_empty_lines_id ((c ∷ l) ∷ ls) hs = ap (◌∷◌ (c ∷ l)) (non_empty_lines_id ls (hs.1))

pub lines_of-joined :
    (l : Text) (ls : List Text)
    → IsLine l
    → All IsLine ls
    → non_empty_lines (split_crlf (unfold_head (joined l ls))) ≡ l ∷ ls
unfolding unfold_head
lines_of-joined l ls h hs =
    rw (split-replace_crlf l ls h hs, joined_lines-joined l ls hs, split_crlf-joined l ls h hs)
      (non_empty_lines_id (l ∷ ls) (h, hs))
