-- ===== src/AsyncLog/Lines.antt =====
-- The buffer of a thread hands over whole lines, and loses and repeats nothing.
use aog_task_controller.Prelude.{
  ℕ, ◌≡◌, refl, ap, ◌∙◌, sym, subst, inl, inr, false, List, [], ◌∷◌, ◌++◌, Option, none, some,
  arith, ◌==◌, any, append_assoc, append-nil, Bool-cases, if_true, if_false,
}
use aog_task_controller.AsyncLog.{extend, split_last, append_after, append, close_buffer}

-- The bytes of a list of texts, one after the other.
unfoldable pub joined : List (List ℕ) → List ℕ
joined [] = []
joined (t ∷ rest) = t ++ joined rest

abbrev pub HasNoLineFeed : List ℕ → Type 0
HasNoLineFeed text = any (λ c. c == 10) text ≡ false

pub data EndsInLineFeed : List ℕ → Type 0 where
  line_feed : EndsInLineFeed (10 ∷ [])
  longer : (c : ℕ) {text : List ℕ} → EndsInLineFeed text → EndsInLineFeed (c ∷ text)

abbrev pub AreLines : List (List ℕ) → Type 0
AreLines [] = Unit {0}
AreLines (t ∷ rest) = EndsInLineFeed t × AreLines rest

-- What a search for the last line feed comes to.
abbrev IsSplit : List ℕ → Option (List ℕ × List ℕ) → Type 0
IsSplit text none = HasNoLineFeed text
IsSplit text (some (before, after)) =
    (before ++ after ≡ text) × EndsInLineFeed before × HasNoLineFeed after

extend-IsSplit :
    (c : ℕ) (rest : List ℕ) (split : Option (List ℕ × List ℕ))
    → IsSplit rest split
    → IsSplit (c ∷ rest) (extend c rest split)
unfolding extend
extend-IsSplit c rest (some (before, after)) (e, line, clean) =
    (ap (λ t. c ∷ t) e, longer c line, clean)
extend-IsSplit c rest none clean = elim (Bool-cases (c == 10)) [
  | inl feed ↦
      let ten : c ≡ 10 = ground arith in
      subst (IsSplit (c ∷ rest)) (sym (if_true (c == 10) (some (c ∷ [], rest)) none feed))
        (refl, subst (λ d. EndsInLineFeed (d ∷ [])) (sym ten) line_feed, clean)
  | inr other ↦
      let still : HasNoLineFeed (c ∷ rest) = ground arith in
      subst (IsSplit (c ∷ rest)) (sym (if_false (c == 10) (some (c ∷ [], rest)) none other)) still
]

split_last-IsSplit : (text : List ℕ) → IsSplit text (split_last text)
unfolding split_last
split_last-IsSplit [] = refl
split_last-IsSplit (c ∷ rest) = extend-IsSplit c rest (split_last rest) (split_last-IsSplit rest)

-- What one call leaves: the same bytes, whole lines, and a buffer that waits for a line feed.
abbrev IsAppended : List ℕ → List ℕ × List (List ℕ) → Type 0
IsAppended text (line, sent) = (joined sent ++ line ≡ text) × AreLines sent × HasNoLineFeed line

append_after-IsAppended :
    (text : List ℕ) (split : Option (List ℕ × List ℕ))
    → IsSplit text split
    → IsAppended text (append_after text split)
unfolding append_after joined
append_after-IsAppended text none clean = (refl, tt, clean)
append_after-IsAppended text (some (before, after)) (e, line, clean) =
    (ap (λ t. t ++ after) (append-nil before) ∙ e, (line, tt), clean)

-- The calls of one thread, and the destructor: the texts that are submitted.
unfoldable pub write_all : List ℕ → List (List ℕ) → List (List ℕ)
write_all line [] = close_buffer line
write_all line (text ∷ rest) = let (line', sent) = append line text in sent ++ write_all line' rest

joined-append : (xs ys : List (List ℕ)) → joined (xs ++ ys) ≡ joined xs ++ joined ys
unfolding joined
joined-append [] ys = refl
joined-append (x ∷ xs) ys =
    ap (λ t. x ++ t) (joined-append xs ys) ∙ sym (append_assoc x (joined xs) (joined ys))

joined-close_buffer : (line : List ℕ) → joined (close_buffer line) ≡ line
unfolding joined close_buffer
joined-close_buffer [] = refl
joined-close_buffer (c ∷ rest) = append-nil (c ∷ rest)

-- One call of `append`: the submitted text and the new buffer are, in this order, the old buffer and
-- the text; what is submitted are whole lines; and the new buffer has no line feed.
pub append-IsAppended :
    (line text : List ℕ)
    → let (line', sent) = append line text in
      (joined sent ++ line' ≡ line ++ text) × AreLines sent × HasNoLineFeed line'
unfolding append
append-IsAppended line text =
    append_after-IsAppended (line ++ text) (split_last (line ++ text))
      (split_last-IsSplit (line ++ text))

-- All the calls of a thread and its end: the submitted texts, one after the other, are what the thread
-- wrote.
pub joined-write_all :
    (line : List ℕ) (texts : List (List ℕ)) → joined (write_all line texts) ≡ line ++ joined texts
unfolding write_all joined
joined-write_all line [] = joined-close_buffer line ∙ sym (append-nil line)
joined-write_all line (text ∷ rest) =
    let (line', sent) = append line text in
    let (same, whole, clean) = append-IsAppended line text in
    joined-append sent (write_all line' rest)
    ∙ ap (λ t. joined sent ++ t) (joined-write_all line' rest)
    ∙ sym (append_assoc (joined sent) line' (joined rest))
    ∙ ap (λ t. t ++ joined rest) same
    ∙ append_assoc line text (joined rest)
