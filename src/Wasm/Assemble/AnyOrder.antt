-- ===== src/Wasm/Assemble/AnyOrder.antt =====
-- `fixUpfakeBranch` visits an `unordered_multimap`, in the order of a hash. The order does not matter.
use mathlib.Core.List.{append_assoc}
use tiny_wasm.Base.{
  ℕ, suc, ◌*◌, ◌^◌, ◌≤◌, ◌<◌, ◌≡◌, refl, sym, ap, ◌∙◌, subst, ◌⊎◌, inl, inr, Bool, true, false,
  List, [], ◌∷◌, ◌++◌, length, arith, ◌==◌, if◌then◌else◌,
}
use tiny_wasm.Base.Result.{Result, ok, err, ◌>>=◌, bind-returned}
use tiny_wasm.Base.Text.{Text, text, replace}
use tiny_wasm.Utils.Hex.{hex_pad}
use tiny_wasm.Utils.Hex.Length.{length-hex_pad}
use tiny_wasm.Wasm.Branch.{displacement, fix_up_one, fix_up_all}
use tiny_wasm.Wasm.Assemble.{
  Item, word, branch, item_text, items_text, entries, item_fixed, items_fixed,
}
use tiny_wasm.Wasm.Assemble.Laid.{AreLabels, length-item_text}
use tiny_wasm.Wasm.Assemble.Landing.{Lands, items_fixed-Lands}
use tiny_wasm.Wasm.Assemble.FixUp.{encode_fixed-IsWord, replace_middle, length-next}

abbrev pub Entry : Type 0
Entry = Text × (ℕ × Text)

abbrev pub IsAmong : Entry → List Entry → Type 0
IsAmong x [] = ⊥
IsAmong x (y ∷ ys) = (x ≡ y) ⊎ IsAmong x ys

-- The digits of an item that the mask has as finished.
abbrev piece_of : Bool → Result Text → Text → Text
piece_of false r t = t
piece_of true (ok p) t = p
piece_of true (err e) t = t

-- Text in which the places of the mask are finished.
abbrev mixed : List (Text × ℕ) → (ℕ → Bool) → ℕ → List Item → Text
mixed labels f n [] = []
mixed labels f n (i ∷ is) =
    piece_of (f (n * 8)) (item_fixed labels n i) (item_text i) ++ mixed labels f (suc n) is

abbrev mark : ℕ → (ℕ → Bool) → ℕ → Bool
mark o f p = if p == o then true else f p

abbrev marks : List Entry → (ℕ → Bool) → ℕ → Bool
marks [] f = f
marks (x ∷ xs) f = marks xs (mark x.1.0 f)

-- Every item can be encoded.
abbrev AreFixed : List (Text × ℕ) → ℕ → List Item → Type 0
AreFixed labels n [] = Unit
AreFixed labels n (i ∷ is) =
    ((p : Text) × (item_fixed labels n i ≡ ok p)) × AreFixed labels (suc n) is

items_fixed-AreFixed :
    (labels : List (Text × ℕ)) (is : List Item) (n : ℕ) (t : Text)
    → items_fixed labels n is ≡ ok t
    → AreFixed labels n is
items_fixed-AreFixed labels [] n t h = tt
items_fixed-AreFixed labels (i ∷ is) n t h =
    let (one, first, more) = bind-returned (item_fixed labels n i) _ h in
    let (ts, made, last) = bind-returned (items_fixed labels (suc n) is) _ more in
    ((one, first), items_fixed-AreFixed labels is (suc n) ts made)

pub length-item_fixed :
    (labels : List (Text × ℕ)) (n : ℕ) (i : Item) (t : Text)
    → item_fixed labels n i ≡ ok t
    → length t ≡ 8
length-item_fixed labels n (word x) t h =
    let e : hex_pad 8 x ≡ t = cc in sym (ap length e) ∙ length-hex_pad 8 x
length-item_fixed labels n (branch l b) t h =
    let (x, e) = encode_fixed-IsWord b (displacement labels l (n * 8)) t h in
    ap length e ∙ length-hex_pad 8 x

length-piece :
    (labels : List (Text × ℕ)) (n : ℕ) (i : Item) (b : Bool) (r : Result Text)
    → item_fixed labels n i ≡ r
    → length (piece_of b r (item_text i)) ≡ 8
length-piece labels n i false r e = length-item_text i
length-piece labels n i true (ok p) e = length-item_fixed labels n i p e
length-piece labels n i true (err x) e = length-item_text i

entries-behind : (is : List Item) (n : ℕ) (x : Entry) → IsAmong x (entries n is) → n * 8 ≤ x.1.0
entries-behind [] n x h = absurd h
entries-behind (word w ∷ is) n x h = omega (arith, entries-behind is (suc n) x h)
entries-behind (branch l b ∷ is) n x (inl e) = omega (arith, ap (λ (y : Entry). y.1.0) e)
entries-behind (branch l b ∷ is) n x (inr h) = omega (arith, entries-behind is (suc n) x h)

-- A mark before the items changes nothing.
mixed-before :
    (labels : List (Text × ℕ)) (f : ℕ → Bool) (o n : ℕ) (is : List Item)
    → o < n * 8
    → mixed labels (mark o f) n is ≡ mixed labels f n is
mixed-before labels f o n [] h = refl
mixed-before labels f o n (i ∷ is) h =
    let apart : mark o f (n * 8) ≡ f (n * 8) = ground arith in
    (λ j.
      piece_of (apart j) (item_fixed labels n i) (item_text i)
      ++ mixed-before labels f o (suc n) is (omega arith) j)

module _ (labels : List (Text × ℕ)) where
  -- An entry behind the first item.
  further :
      (x : Entry) (f : ℕ → Bool) (i : Item) (is : List Item) (n : ℕ) (pre : Text)
      → n * 8 < x.1.0
      → ((pre' : Text)
          → length pre' ≡ suc n * 8
          → fix_up_one labels x (pre' ++ mixed labels f (suc n) is)
            ≡ ok (pre' ++ mixed labels (mark x.1.0 f) (suc n) is))
      → length pre ≡ n * 8
      → fix_up_one labels x (pre ++ mixed labels f n (i ∷ is))
        ≡ ok (pre ++ mixed labels (mark x.1.0 f) n (i ∷ is))
  further x f i is n pre behind ih e =
      let p = piece_of (f (n * 8)) (item_fixed labels n i) (item_text i) in
      let eight = length-piece labels n i (f (n * 8)) (item_fixed labels n i) refl in
      let apart : f (n * 8) ≡ mark x.1.0 f (n * 8) = ground arith in
      ap (fix_up_one labels x) (sym (append_assoc pre p (mixed labels f (suc n) is)))
      ∙ (ih (pre ++ p) (length-next pre p n e eight)
          ∙ ap ok (
              append_assoc pre p (mixed labels (mark x.1.0 f) (suc n) is)
              ∙ ap
                  (λ b.
                    pre
                    ++ (piece_of b (item_fixed labels n i) (item_text i)
                        ++ mixed labels (mark x.1.0 f) (suc n) is))
                  apart))

  fix_up_one-here :
      (l b : Text) (f : ℕ → Bool) (is : List Item) (n : ℕ) (pre t : Text)
      → length pre ≡ n * 8
      → item_fixed labels n (branch l b) ≡ ok t
      → fix_up_one labels (l, (n * 8, b)) (pre ++ mixed labels f n (branch l b ∷ is))
        ≡ ok (pre ++ mixed labels (mark (n * 8) f) n (branch l b ∷ is))
  unfolding fix_up_one
  fix_up_one-here l b f is n pre t e made =
      let old = piece_of (f (n * 8)) (item_fixed labels n (branch l b)) (text "FFFFFFFF") in
      let eight =
        length-piece labels n (branch l b) (f (n * 8)) (item_fixed labels n (branch l b)) refl in
      let rest = mixed labels f (suc n) is in
      let marked : mark (n * 8) f (n * 8) ≡ true = ground arith in
      let after : mixed labels (mark (n * 8) f) n (branch l b ∷ is) ≡ t ++ rest = (λ j.
        piece_of (marked j) (made j) (text "FFFFFFFF")
        ++ mixed-before labels f (n * 8) (suc n) is (omega arith) j) in
      ap (λ r. r >>= λ fixed. replace (pre ++ (old ++ rest)) (n * 8) 8 fixed) made
      ∙ (replace_middle pre old rest t (n * 8) e eight ∙ ap (λ m. ok (pre ++ m)) (sym after))

  fix_up_one-mixed :
      (x : Entry) (f : ℕ → Bool) (is : List Item) (n : ℕ) (pre : Text)
      → length pre ≡ n * 8
      → AreFixed labels n is
      → IsAmong x (entries n is)
      → fix_up_one labels x (pre ++ mixed labels f n is)
        ≡ ok (pre ++ mixed labels (mark x.1.0 f) n is)
  fix_up_one-mixed x f [] n pre e fixed h = absurd h
  fix_up_one-mixed x f (word w ∷ is) n pre e (_, fixed) h =
      further x f (word w) is n pre (omega (arith, entries-behind is (suc n) x h))
        (λ pre' e'. fix_up_one-mixed x f is (suc n) pre' e' fixed h) e
  fix_up_one-mixed x f (branch l b ∷ is) n pre e ((t, made), fixed) (inl same) =
      subst
        (λ (y : Entry).
          fix_up_one labels y (pre ++ mixed labels f n (branch l b ∷ is))
          ≡ ok (pre ++ mixed labels (mark y.1.0 f) n (branch l b ∷ is)))
        (sym same) (fix_up_one-here l b f is n pre t e made)
  fix_up_one-mixed x f (branch l b ∷ is) n pre e (_, fixed) (inr h) =
      further x f (branch l b) is n pre (omega (arith, entries-behind is (suc n) x h))
        (λ pre' e'. fix_up_one-mixed x f is (suc n) pre' e' fixed h) e

  fix_up_all-mixed :
      (xs : List Entry) (f : ℕ → Bool) (is : List Item)
      → AreFixed labels 0 is
      → ((x : Entry) → IsAmong x xs → IsAmong x (entries 0 is))
      → fix_up_all labels xs (mixed labels f 0 is) ≡ ok (mixed labels (marks xs f) 0 is)
  unfolding fix_up_all
  fix_up_all-mixed [] f is fixed among = refl
  fix_up_all-mixed (x ∷ xs) f is fixed among =
      ap (λ r. r >>= fix_up_all labels xs)
        (fix_up_one-mixed x f is 0 [] refl fixed (among x (inl refl)))
      ∙ fix_up_all-mixed xs (mark x.1.0 f) is fixed (λ y h. among y (inr h))

  -- All places marked.
  mixed-finished :
      (f : ℕ → Bool) (is : List Item) (n : ℕ) (t : Text)
      → ((x : Entry) → IsAmong x (entries n is) → f x.1.0 ≡ true)
      → items_fixed labels n is ≡ ok t
      → mixed labels f n is ≡ t
  mixed-finished f [] n t all h = cc
  mixed-finished f (word x ∷ is) n t all h =
      let (ts, made, last) = bind-returned (items_fixed labels (suc n) is) _ h in
      let joined : hex_pad 8 x ++ ts ≡ t = cc in
      let rest = mixed-finished f is (suc n) ts all made in
      (λ j. either_way x (f (n * 8)) j ++ rest j) ∙ joined
    where
      either_way : (x : ℕ) (b : Bool) → piece_of b (ok (hex_pad 8 x)) (hex_pad 8 x) ≡ hex_pad 8 x
      either_way x true = refl
      either_way x false = refl
  mixed-finished f (branch l b ∷ is) n t all h =
      let (one, first, more) = bind-returned (item_fixed labels n (branch l b)) _ h in
      let (ts, made, last) = bind-returned (items_fixed labels (suc n) is) _ more in
      let joined : one ++ ts ≡ t = cc in
      let marked = all (l, (n * 8, b)) (inl refl) in
      let rest = mixed-finished f is (suc n) ts (λ x h. all x (inr h)) made in
      (λ j. piece_of (marked j) (first j) (text "FFFFFFFF") ++ rest j) ∙ joined

  mixed-open : (is : List Item) (n : ℕ) → mixed labels (λ o. false) n is ≡ items_text is
  mixed-open [] n = refl
  mixed-open (i ∷ is) n = ap (λ t. item_text i ++ t) (mixed-open is (suc n))

marks-keep : (xs : List Entry) (f : ℕ → Bool) (o : ℕ) → f o ≡ true → marks xs f o ≡ true
marks-keep [] f o h = h
marks-keep (x ∷ xs) f o h = marks-keep xs (mark x.1.0 f) o (ground arith)

marks-among : (xs : List Entry) (f : ℕ → Bool) (x : Entry) → IsAmong x xs → marks xs f x.1.0 ≡ true
marks-among [] f x h = absurd h
marks-among (y ∷ ys) f x (inl e) =
    let same : x.1.0 ≡ y.1.0 = ap (λ (z : Entry). z.1.0) e in
    marks-keep ys (mark y.1.0 f) x.1.0 (ground arith)
marks-among (y ∷ ys) f x (inr h) = marks-among ys (mark y.1.0 f) x h

fix_up_all-items_fixed :
    (labels : List (Text × ℕ)) (is : List Item) (t : Text) (xs : List Entry)
    → items_fixed labels 0 is ≡ ok t
    → ((x : Entry) → IsAmong x xs → IsAmong x (entries 0 is))
    → ((x : Entry) → IsAmong x (entries 0 is) → IsAmong x xs)
    → fix_up_all labels xs (items_text is) ≡ ok t
fix_up_all-items_fixed labels is t xs h inside all =
    ap (fix_up_all labels xs) (sym (mixed-open labels is 0))
    ∙ (fix_up_all-mixed labels xs (λ o. false) is (items_fixed-AreFixed labels is 0 t h) inside
        ∙ ap ok (
            mixed-finished labels (marks xs (λ o. false)) is 0 t
              (λ x e. marks-among xs (λ o. false) x (all x e)) h))

-- A text of fewer than 2 ^ 18 instructions with open branches, with its labels between the instructions, whose
-- branches the encoders take: the loop of `fixUpfakeBranch` over the branches in any order, all of them
-- and none else, returns the same text. In it every branch is the word of B, BL or B with its
-- condition whose displacement, in two's complement, leads from its own place to the place of its
-- label, where a label that is not there counts as the first instruction, and the other
-- instructions are what they were.
pub fix_up_all-Lands :
    (labels : List (Text × ℕ)) (is : List Item) (t : Text) (xs : List Entry)
    → length is < 2 ^ 18
    → AreLabels (length is) labels
    → items_fixed labels 0 is ≡ ok t
    → ((x : Entry) → IsAmong x xs → IsAmong x (entries 0 is))
    → ((x : Entry) → IsAmong x (entries 0 is) → IsAmong x xs)
    → (fix_up_all labels xs (items_text is) ≡ ok t) × Lands labels 0 is t
fix_up_all-Lands labels is t xs short between h inside all = (
  fix_up_all-items_fixed labels is t xs h inside all,
  items_fixed-Lands labels (length is) is 0 t between short (omega arith) h,
)
