-- ===== src/Arc/Renames.antt =====
-- A rename request of main/aoip_arc.c does what its items say.
use inferno_esp32_p.Subscriber.Commands.{subscriber_rename}
use inferno_esp32_p.Wire.{byte, rd16}
use inferno_esp32_p.Arc.{
  rename_rx_channels, rename_from, rename_item, is_channel, Subscriber, is_empty,
}
use inferno_esp32_p.Arc.Strings.{StringAt, req_str-take}
use inferno_esp32_p.Arc.Items.{is_empty-take}
use inferno_esp32_p.Prelude.Append.{take-take}
use inferno_esp32_p.Prelude.{
  Bool, List, ℕ, false, ◌&&◌, ◌+◌, ◌∷◌, if◌then◌else◌, length, not, take, ◌*◌, ◌||◌, ◌≡◌, ◌≤◌, [],
  ap, arith, ◌-◌, if_false, if_true, refl, true, leb, ltb, ◌∙◌, ap₂, le→leb, le→ltb_false,
}

-- A receive channel, from 1, and its new name.
pub record Renaming : Type 0 where
  pub ch : ℕ
  pub name : List ℕ

pub record RenamingAt (pkt : List ℕ) (len at : ℕ) (x : Renaming) : Type 0 where
  pub inside : at + 4 ≤ len
  pub ch_at : rd16 pkt at ≡ x.ch
  pub name_at : StringAt pkt len (rd16 pkt (at + 2)) x.name

-- The items from the index `i` on.
abbrev pub RenamingsAt : List ℕ → ℕ → ℕ → List Renaming → Type 0
RenamingsAt pkt len i [] = Unit
RenamingsAt pkt len i (x ∷ xs) =
    RenamingAt pkt len (10 + (2 + i * 4)) x × RenamingsAt pkt len (i + 1) xs

-- One with a channel of 1 to 8 and a name counts.
abbrev pub counts : Renaming → Bool
counts x = is_channel x.ch && not (is_empty x.name)

abbrev pub any_counts : List Renaming → Bool
any_counts [] = false
any_counts (x ∷ xs) = counts x || any_counts xs

-- What the items ask for, with `opened i` for NVS at the item `i`.
unfoldable pub rename_all : (ℕ → Bool) → ℕ → List Renaming → Subscriber → Subscriber
rename_all opened i [] s = s
rename_all opened i (x ∷ xs) s =
    rename_all opened (i + 1) xs
      (if counts x then subscriber_rename (opened i) (x.ch - 1) x.name s else s)

subscriber_rename-take :
    (opened : Bool) (c : ℕ) (nm : List ℕ) (s : Subscriber)
    → subscriber_rename opened c (take 31 nm) s ≡ subscriber_rename opened c nm s
unfolding subscriber_rename
subscriber_rename-take opened c nm s = rw (take-take 31 31 nm (omega arith)) refl

rename_item_lem :
    (opened : Bool) (req : List ℕ) (len at : ℕ) (x : Renaming) (any : Bool) (s : Subscriber)
    → RenamingAt req len (10 + at) x
    → rename_item opened req len at (any, s)
      ≡ (any || counts x, if counts x then subscriber_rename opened (x.ch - 1) x.name s else s)
unfolding rename_item
rename_item_lem opened req len at x any s h =
    ap
      (λ (nm : List ℕ).
        let ch = rd16 req (10 + at) in
        if is_channel ch && not (is_empty nm)
        then (true, subscriber_rename opened (ch - 1) nm s)
        else (any, s))
      (req_str-take 32 req len (rd16 req (10 + at + 2)) x.name h.name_at)
    ∙ ap
        (λ (ch : ℕ).
          if is_channel ch && not (is_empty (take 31 x.name))
          then (true, subscriber_rename opened (ch - 1) (take 31 x.name) s)
          else (any, s))
        h.ch_at
    ∙ ap₂ (λ (b : Bool) (t : Subscriber). if is_channel x.ch && not b then (true, t) else (any, s))
        (is_empty-take x.name) (subscriber_rename-take opened (x.ch - 1) x.name s)
    ∙ split (counts x) any s (subscriber_rename opened (x.ch - 1) x.name s)
  where
    split :
        (b any : Bool) (s t : Subscriber)
        → ◌≡◌ {A = Bool × Subscriber}
            (if b then (true, t) else (any, s))
            (any || b, if b then t else s)
    split true true s t = refl
    split true false s t = refl
    split false true s t = refl
    split false false s t = refl

rename_from_lem :
    (opened : ℕ → Bool) (req : List ℕ) (len i : ℕ) (xs : List Renaming) (any : Bool)
    (s : Subscriber)
    → RenamingsAt req len i xs
    → rename_from opened req len (length xs) i (any, s)
      ≡ (any || any_counts xs, rename_all opened i xs s)
unfolding rename_from rename_all
rename_from_lem opened req len i [] true s h = refl
rename_from_lem opened req len i [] false s h = refl
rename_from_lem opened req len i (x ∷ xs) any s (here, there) =
    let s' = if counts x then subscriber_rename (opened i) (x.ch - 1) x.name s else s in
    if_false (ltb (len - 10) (2 + i * 4 + 4)) (any, s)
      (rename_from opened req len (length xs) (i + 1)
        (rename_item (opened i) req len (2 + i * 4) (any, s)))
      (le→ltb_false (len - 10) (2 + i * 4 + 4) (omega (arith, here.inside)))
    ∙ ap (rename_from opened req len (length xs) (i + 1))
        (rename_item_lem (opened i) req len (2 + i * 4) x any s here)
    ∙ rename_from_lem opened req len (i + 1) xs (any || counts x) s' there
    ∙ ap (λ (b : Bool). (b, rename_all opened (i + 1) xs s')) (assoc any (counts x) (any_counts xs))
  where
    assoc : (a b c : Bool) → ((a || b) || c) ≡ (a || (b || c))
    assoc true b c = refl
    assoc false true c = refl
    assoc false false c = refl

-- A rename request of 12 bytes or more that has as many items as it says, each within it and with
-- its name behind the header as a NUL-terminated string, renames one after the other the channels of
-- 1 to 8 whose item has a name, to that name, cut at 31 bytes, and nothing else; it is answered with
-- the code OK if there is such an item, and with the code "unsupported" if there is none.
pub rename_rx_channels-rename_all :
    (opened : ℕ → Bool) (req : List ℕ) (len : ℕ) (xs : List Renaming) (s : Subscriber)
    → 12 ≤ len
    → byte req 11 ≡ length xs
    → RenamingsAt req len 0 xs
    → rename_rx_channels opened req len s
      ≡ (if any_counts xs then 1 else 0x22, rename_all opened 0 xs s)
unfolding rename_rx_channels
rename_rx_channels-rename_all opened req len xs s long count h =
    ap
      (λ (r : Bool × Subscriber).
        let answer : ℕ × Subscriber = (if r.0 then 1 else 0x22, r.1) in answer)
      (ap (λ n. rename_from opened req len n 0 (false, s))
          (if_true (leb 2 (len - 10)) (byte req 11) 0 (le→leb 2 (len - 10) (omega arith)) ∙ count)
        ∙ rename_from_lem opened req len 0 xs false s h)
