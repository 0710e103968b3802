-- ===== src/Bus/Msg/Stamping.antt =====
-- Headers under lower-casing copies: what is left of a name that was stripped or stamped.
use bytedesk_sdk_dependencie.Prelude.{
  ℕ, ◌≡◌, refl, true, false, none, some, [], ◌∷◌, Text, text_eq, text_eq_iff, text_eq_refl, lookup,
  insert, lookup-insert, All, arith, Bool-cases, inl, inr,
}
use bytedesk_sdk_dependencie.Bus.Msg.{
  lower_byte, lower, Headers, scan, get, clone_loop, clone, is_identity_header, strip_loop,
  strip_reserved,
}

lower_byte-lower_byte : (c : ℕ) → lower_byte (lower_byte c) ≡ lower_byte c
unfolding lower_byte
lower_byte-lower_byte c = ground arith

pub lower-lower : (t : Text) → lower (lower t) ≡ lower t
unfolding lower
lower-lower [] = refl
lower-lower (c ∷ t) = ground (arith, lower_byte-lower_byte c, lower-lower t)

-- No entry answers to the name `j`, whatever its case.
abbrev pub Free : Text → Headers → Type 0
Free j h = All (λ e. text_eq (lower e.0) j ≡ false) h

-- Each entry that answers to the name `j` holds `x`.
abbrev pub Sole : Text → Text → Headers → Type 0
Sole j x h = All (λ e. text_eq (lower e.0) j ≡ true → e.1 ≡ x) h

pub All-insert {κ} :
    (P : Text × Text → Type κ) (k v : Text) (h : Headers)
    → P (k, v)
    → All P h
    → All P (insert k v h)
unfolding insert
All-insert P k v [] p a = (p, a)
All-insert P k v ((j, w) ∷ h) p a = elim (Bool-cases (text_eq j k)) [
  | inl e ↦ rw e (p, a.1)
  | inr e ↦ rw e (a.0, All-insert P k v h p a.1)
]

pub Free-Sole : (j x : Text) (h : Headers) → Free j h → Sole j x h
Free-Sole j x [] f = tt
Free-Sole j x ((k, v) ∷ h) f = (λ e. cc f.0, Free-Sole j x h f.1)

clone_loop-Free : (j : Text) (out h : Headers) → Free j out → Free j h → Free j (clone_loop out h)
unfolding clone_loop
clone_loop-Free j out [] fo fh = fo
clone_loop-Free j out ((k, v) ∷ h) fo fh =
    clone_loop-Free j (insert (lower k) v out) h
      (All-insert (λ e. text_eq (lower e.0) j ≡ false) (lower k) v out (rw lower-lower fh.0) fo)
      fh.1

pub clone-Free : (j : Text) (h : Headers) → Free j h → Free j (clone h)
unfolding clone
clone-Free j h f = clone_loop-Free j [] h tt f

lookup-Free : (j : Text) (h : Headers) → lower j ≡ j → Free j h → lookup j h ≡ none
unfolding lookup
lookup-Free j [] l f = refl
lookup-Free j ((k, v) ∷ h) l f =
    ground (arith, text_eq_iff k j, text_eq_iff (lower k) j, lookup-Free j h l f.1, f.0)

scan-Free : (j : Text) (h : Headers) → Free j h → scan j h ≡ []
unfolding scan
scan-Free j [] f = refl
scan-Free j ((k, v) ∷ h) f = rw f.0 (scan-Free j h f.1)

-- A name that no entry answers to reads as absent.
pub get-Free : (j : Text) (h : Headers) → lower j ≡ j → Free j h → get h j ≡ []
unfolding get
get-Free j h l f = ground (arith, lookup-Free j h l f, scan-Free j h f)

pub strip_loop-Free :
    (j : Text) (out h : Headers)
    → is_identity_header j ≡ true
    → lower j ≡ j
    → Free j out
    → Free j (strip_loop out h)
unfolding strip_loop
strip_loop-Free j out [] i l f = f
strip_loop-Free j out ((k, v) ∷ h) i l f = elim (Bool-cases (is_identity_header (lower k))) [
  | inl e ↦ rw e (strip_loop-Free j out h i l f)
  | inr e ↦ rw e (
      strip_loop-Free j (insert (lower k) v out) h i l (
        All-insert (λ e. text_eq (lower e.0) j ≡ false) (lower k) v out
          (ground (arith, text_eq_iff (lower (lower k)) j, lower-lower k)) f))
]

clone_loop-Sole :
    (j x : Text) (out h : Headers)
    → lookup j out ≡ some x
    → Sole j x h
    → lookup j (clone_loop out h) ≡ some x
unfolding clone_loop
clone_loop-Sole j x out [] o s = o
clone_loop-Sole j x out ((k, v) ∷ h) o s =
    clone_loop-Sole j x (insert (lower k) v out) h
      (ground (arith, lookup-insert (lower k) j v out, text_eq_iff (lower k) j, s.0)) s.1

clone_loop-lookup :
    (j x : Text) (out h : Headers)
    → lower j ≡ j
    → Sole j x h
    → lookup j h ≡ some x
    → lookup j (clone_loop out h) ≡ some x
unfolding clone_loop lookup
clone_loop-lookup j x out [] l s e = cc
clone_loop-lookup j x out ((k, v) ∷ h) l s e = elim (Bool-cases (text_eq k j)) [
  | inl q ↦
      clone_loop-Sole j x (insert (lower k) v out) h
        (ground
          (arith, lookup-insert (lower k) j v out, text_eq_iff k j, text_eq_iff (lower k) j, s.0))
        s.1
  | inr q ↦ clone_loop-lookup j x (insert (lower k) v out) h l s.1 (ground arith)
]

clone_loop_keeps_Sole :
    (j x : Text) (out h : Headers) → Sole j x out → Sole j x h → Sole j x (clone_loop out h)
unfolding clone_loop
clone_loop_keeps_Sole j x out [] o s = o
clone_loop_keeps_Sole j x out ((k, v) ∷ h) o s =
    clone_loop_keeps_Sole j x (insert (lower k) v out) h
      (All-insert (λ e. text_eq (lower e.0) j ≡ true → e.1 ≡ x) (lower k) v out (rw lower-lower s.0)
        o)
      s.1

-- The name `j` reads as `x`, and no entry under another spelling says otherwise.
pub record Holds (j x : Text) (h : Headers) : Type 0 where
  pub sole : Sole j x h
  pub found : lookup j h ≡ some x

pub clone-Holds : (j x : Text) (h : Headers) → lower j ≡ j → Holds j x h → Holds j x (clone h)
unfolding clone
clone-Holds j x h l s = record {
  sole = clone_loop_keeps_Sole j x [] h tt s.sole;
  found = clone_loop-lookup j x [] h l s.sole s.found;
}

pub get-Holds : (j x : Text) (h : Headers) → Holds j x h → get h j ≡ x
unfolding get
get-Holds j x h s = ground (arith, s.found)

pub insert-Holds_self : (j x : Text) (h : Headers) → Free j h → Holds j x (insert j x h)
insert-Holds_self j x h f = record {
  sole =
      All-insert (λ e. text_eq (lower e.0) j ≡ true → e.1 ≡ x) j x h (λ _. refl)
        (Free-Sole j x h f);
  found = ground (arith, lookup-insert j j x h, text_eq_refl j);
}

pub insert-Holds_other :
    (j x k v : Text) (h : Headers)
    → lower k ≡ k
    → text_eq k j ≡ false
    → Holds j x h
    → Holds j x (insert k v h)
insert-Holds_other j x k v h l n s = record {
  sole = All-insert (λ e. text_eq (lower e.0) j ≡ true → e.1 ≡ x) k v h (rw l (λ e. cc)) s.sole;
  found = ground (arith, lookup-insert k j v h, s.found);
}

pub insert-Free :
    (j k v : Text) (h : Headers)
    → lower k ≡ k
    → text_eq k j ≡ false
    → Free j h
    → Free j (insert k v h)
insert-Free j k v h l n f = All-insert (λ e. text_eq (lower e.0) j ≡ false) k v h (rw l n) f

pub strip_reserved-Free :
    (j : Text) (h : Headers) → is_identity_header j ≡ true → lower j ≡ j → Free j (strip_reserved h)
unfolding strip_reserved
strip_reserved-Free j h i l = strip_loop-Free j [] h i l tt
