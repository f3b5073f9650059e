-- ===== src/Lexparse/Lexer/View.antt =====
-- The input that a `BaseLexer` has before it, pushed back runes included, and what each of its
-- operations does to that view.
use kweb.Base.{
  ℕ, Bool, true, false, List, [], ◌∷◌, Text, ◌≡◌, refl, sym, subst, ap, ◌+◌, ◌≤◌, length, arith,
}
use kweb.Lexparse.Lexer.{
  Rune, chr, rune_eof, rune_error, at_eof, BaseLexer, init, unread, read, peek,
}

-- The pushed back runes, in front of the runes `rs` of the reader, are the input `cs`. The end of
-- the input may be pushed back too.
abbrev Holds : List Rune → Text → Text → Type 0
Holds [] rs cs = rs ≡ cs
Holds (chr c ∷ us) rs cs = (rest : Text) × (cs ≡ c ∷ rest) × Holds us rs rest
Holds (rune_eof ∷ us) rs cs = (cs ≡ []) × Holds us rs []
Holds (rune_error ∷ us) rs cs = ⊥

-- The lexer has met no error, and `cs` is all that it is still to return before the end.
pub record Reads (l : BaseLexer) (cs : Text) : Type 0 where
  pub healthy : l.err ≡ false
  pub ends : l.reader.ending ≡ at_eof
  pub at_end : l.eof ≡ true → l.reader.runes ≡ []
  pub holds : Holds l.unread_runes l.reader.runes cs

abbrev lexer_of : List Rune → Text → Bool → BaseLexer
lexer_of us rs f = record {
  reader = record { runes = rs; ending = at_eof };
  unread_runes = us;
  err = false;
  eof = f;
}

pub init-Reads : (s : Text) → Reads (init s) s
unfolding init
init-Reads s = record { healthy = refl; ends = refl; at_end = λ h. cc; holds = refl }

abbrev pub Returns : Rune → Text → Rune × BaseLexer → Type 0
Returns r cs result = (result.0 ≡ r) × Reads result.1 cs

read_of_cons :
    (us : List Rune) (rs : Text) (f : Bool) (c : ℕ) (cs : Text)
    → (f ≡ true → rs ≡ [])
    → Holds us rs (c ∷ cs)
    → Returns (chr c) cs (read (lexer_of us rs f))
unfolding read
read_of_cons [] [] f c cs end h = cc
read_of_cons [] (r ∷ rs) true c cs end h = cc (end refl)
read_of_cons [] (r ∷ rs) false c cs end h = ground arith
read_of_cons (chr b ∷ us) rs f c cs end h = ground (arith)
read_of_cons (rune_eof ∷ us) rs f c cs end h = cc (h.0)
read_of_cons (rune_error ∷ us) rs f c cs end h = absurd h

read_of_nil :
    (us : List Rune) (rs : Text) (f : Bool)
    → (f ≡ true → rs ≡ [])
    → Holds us rs []
    → Returns rune_eof [] (read (lexer_of us rs f))
unfolding read
read_of_nil [] [] true end h = ground arith
read_of_nil [] [] false end h = ground arith
read_of_nil [] (r ∷ rs) f end h = cc
read_of_nil (chr b ∷ us) rs f end h = cc (h.1)
read_of_nil (rune_eof ∷ us) rs f end h = ground arith
read_of_nil (rune_error ∷ us) rs f end h = absurd h

Reads-eq :
    (l : BaseLexer) {cs : Text} → Reads l cs → l ≡ lexer_of l.unread_runes l.reader.runes l.eof
Reads-eq l h = ground arith

pub read-Reads_cons :
    (l : BaseLexer) (c : ℕ) (cs : Text) → Reads l (c ∷ cs) → Returns (chr c) cs (read l)
read-Reads_cons l c cs h =
    subst (λ k. Returns (chr c) cs (read k)) (sym (Reads-eq l h))
      (read_of_cons l.unread_runes l.reader.runes l.eof c cs h.at_end h.holds)

pub read-Reads_nil : (l : BaseLexer) → Reads l [] → Returns rune_eof [] (read l)
read-Reads_nil l h =
    subst (λ k. Returns rune_eof [] (read k)) (sym (Reads-eq l h))
      (read_of_nil l.unread_runes l.reader.runes l.eof h.at_end h.holds)

pub unread-Reads_chr :
    (l : BaseLexer) (c : ℕ) (cs : Text) → Reads l cs → Reads (unread (chr c) l) (c ∷ cs)
unfolding unread
unread-Reads_chr l c cs h =
    simp h.healthy
      (record { healthy = refl; ends = h.ends; at_end = h.at_end; holds = (cs, refl, h.holds) })

pub unread-Reads_eof : (l : BaseLexer) → Reads l [] → Reads (unread rune_eof l) []
unfolding unread
unread-Reads_eof l h =
    simp h.healthy
      (record { healthy = refl; ends = h.ends; at_end = h.at_end; holds = (refl, h.holds) })

-- The rune that a look ahead shows.
abbrev pub first_rune : Text → Rune
first_rune [] = rune_eof
first_rune (c ∷ cs) = chr c

-- `Peek` shows the next rune, or the end, and leaves the input as it is.
pub peek-Reads : (l : BaseLexer) (cs : Text) → Reads l cs → Returns (first_rune cs) cs (peek l)
unfolding peek
peek-Reads l [] h = let (e, k) = read-Reads_nil l h in (e, rw e (unread-Reads_eof (read l).1 k))
peek-Reads l (c ∷ cs) h =
    let (e, k) = read-Reads_cons l c cs h in (e, rw e (unread-Reads_chr (read l).1 c cs k))

length-Holds : (us : List Rune) (rs cs : Text) → Holds us rs cs → length cs ≤ length us + length rs
length-Holds [] rs cs h = omega (arith, ap length h)
length-Holds (chr c ∷ us) rs cs h = omega (arith, ap length (h.1), length-Holds us rs h.0 h.2)
length-Holds (rune_eof ∷ us) rs cs h = omega (arith, ap length (h.0))
length-Holds (rune_error ∷ us) rs cs h = absurd h

-- The runes at hand bound the input.
pub length-Reads :
    (l : BaseLexer) (cs : Text)
    → Reads l cs
    → length cs ≤ length l.unread_runes + length l.reader.runes
length-Reads l cs h = length-Holds l.unread_runes l.reader.runes cs h.holds
