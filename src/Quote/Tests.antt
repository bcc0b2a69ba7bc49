-- ===== src/Quote/Tests.antt =====
-- Quoted words.
use cm_dotfiles.Prelude.{ℕ, List, ◌≡◌, refl, some, codes}
use cm_dotfiles.Quote.{cute_str_litquote, cute_cstr_litquote}
use cm_dotfiles.Quote.Shell.{word, plain}
use cm_dotfiles.Quote.RoundTrip.{Trims, word-cute_str_litquote}

its : cute_str_litquote (codes "it's") ≡ codes "'it'\\''s'"
unfolding cute_str_litquote
its = refl

word-cute_str_litquote_example :
    (t : List ℕ) × (word plain (cute_str_litquote (codes "'it's")) ≡ some t)
    × Trims (codes "'it's") t
    × (cute_cstr_litquote (codes "'it's") ≡ cute_str_litquote (codes "'it's"))
word-cute_str_litquote_example = word-cute_str_litquote (codes "'it's")
