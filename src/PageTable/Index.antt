-- ===== src/PageTable/Index.antt =====
-- The indices of a page number tell its low 45 bits apart.
use btl_hdh.Base.{◌∙◌, ap₂, ℕ, ◌+◌, ◌*◌, ◌%◌, ◌^◌, ◌≡◌, ◌<◌, Bool, true, ◌&&◌, ◌==◌, arith}
use btl_hdh.PageTable.{get_pd_from_address, get_pd_from_pagenum}
use btl_hdh.PageTable.Walk.{same_entry}

&&-intro : (a b : Bool) → a ≡ true → b ≡ true → (a && b) ≡ true
&&-intro a b h k = cc

-- The five indices are the digits in base 512 of the low 45 bits.
digits :
    (pgn : ℕ)
    → let pd = get_pd_from_pagenum pgn in
      (pd.pgd < 512)
      × (pd.p4d < 512)
      × (pd.pud < 512)
      × (pd.pmd < 512)
      × (pd.pt < 512)
      × ((((pd.pgd * 512 + pd.p4d) * 512 + pd.pud) * 512 + pd.pmd) * 512 + pd.pt ≡ pgn % 2 ^ 45)
unfolding get_pd_from_pagenum get_pd_from_address
digits pgn = omega arith

-- Equality of numbers in base 512, digit by digit.
digits_eq :
    (a b c d e a' b' c' d' e' : ℕ)
    → a < 512
    → b < 512
    → c < 512
    → d < 512
    → e < 512
    → a' < 512
    → b' < 512
    → c' < 512
    → d' < 512
    → e' < 512
    → ((a == a') && ((b == b') && ((c == c') && ((d == d') && (e == e'))))) ≡ (
        (((a * 512 + b) * 512 + c) * 512 + d) * 512 + e
        == (((a' * 512 + b') * 512 + c') * 512 + d') * 512 + e')
digits_eq a b c d e a' b' c' d' e' h1 h2 h3 h4 h5 k1 k2 k3 k4 k5 = ground arith

-- Two page numbers have the same entry exactly if their low 45 bits agree.
pub same_entry-get_pd_from_pagenum :
    (p q : ℕ)
    → same_entry (get_pd_from_pagenum p) (get_pd_from_pagenum q) ≡ (p % 2 ^ 45 == q % 2 ^ 45)
unfolding same_entry
same_entry-get_pd_from_pagenum p q =
    let (a, b, c, d, e, s) = digits p in
    let (a', b', c', d', e', s') = digits q in
    digits_eq _ _ _ _ _ _ _ _ _ _ a b c d e a' b' c' d' e' ∙ ap₂ ◌==◌ s s'
