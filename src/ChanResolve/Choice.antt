-- ===== src/ChanResolve/Choice.antt =====
-- Which answer main/chan_resolve.c takes.
use inferno_esp32_p.ChanResolve.Answers.{
  MdnsResult, Address, v4, v6, address_of, describe, first_usable, first_v4, chan_resolve,
}
use inferno_esp32_p.Prelude.{
  List, ℕ, suc, ◌∷◌, ◌≡◌, ◌≢◌, [], some, zero, ◌++◌, ap, if_false, refl, ◌==◌, ◌∙◌, arith, if_true,
  sym, ==_iff,
}

-- Answers with no IPv4 address, in the list or for the host name.
abbrev pub Addressless : List MdnsResult → Type 0
Addressless [] = Unit {0}
Addressless (r ∷ rs) = (address_of r ≡ 0) × Addressless rs

first_usable-append :
    (before after : List MdnsResult) (r : MdnsResult)
    → Addressless before
    → address_of r ≢ 0
    → first_usable (before ++ r ∷ after) ≡ some (describe r (address_of r))
unfolding first_usable
first_usable-append [] after r no_before has = if_false (address_of r == 0) _ _ (ground arith)
first_usable-append (b ∷ before) after r no_before has =
    if_true (address_of b == 0) _ _ ((==_iff (address_of b) 0).1 no_before.0)
    ∙ first_usable-append before after r no_before.1 has

-- IPv6 addresses before the IPv4 one are passed over.
abbrev pub behind_v6 : ℕ → List Address → List Address
behind_v6 zero more = more
behind_v6 (suc n) more = v6 ∷ behind_v6 n more

first_v4-behind : (n ip : ℕ) (more : List Address) → first_v4 (behind_v6 n (v4 ip ∷ more)) ≡ ip
unfolding first_v4
first_v4-behind zero ip more = refl
first_v4-behind (suc n) ip more = first_v4-behind n ip more

-- The answer taken is the first with an IPv4 address: behind answers that have none, one with an
-- IPv4 address behind any number of IPv6 ones is described, with that address.
pub chan_resolve-first :
    (before after : List MdnsResult) (r : MdnsResult) (n ip : ℕ) (more : List Address)
    → Addressless before
    → r.addr ≡ behind_v6 n (v4 ip ∷ more)
    → ip ≢ 0
    → chan_resolve (some (before ++ r ∷ after)) ≡ some (describe r ip)
unfolding chan_resolve
chan_resolve-first before after r n ip more no_before is has =
    let at : address_of r ≡ ip = ip_of in
    first_usable-append before after r no_before (λ e. has (sym at ∙ e))
    ∙ ap (λ a. some (describe r a)) at
  where
    v4_of : first_v4 r.addr ≡ ip
    v4_of = ap first_v4 is ∙ first_v4-behind n ip more

    ip_of : address_of r ≡ ip
    ip_of =
        unfold address_of in (if_false (first_v4 r.addr == 0) _ _ (ground (arith, v4_of)) ∙ v4_of)
