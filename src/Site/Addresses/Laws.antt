-- ===== src/Site/Addresses/Laws.antt =====
-- i18n.ts of the landing site: the switch of languages, and the texts of both.
use tidybridge.Base.{
  Str, js, str_eq, starts_with, ◌≡◌, ◌↔◌, refl, true, none, some, List, [], ◌∷◌, ◌++◌,
}
use tidybridge.I18n.{spanish, english}
use tidybridge.Site.Copy.{Access, text_at}
use tidybridge.Site.Copy.Shape.{same_shape, text_at-alike}
use tidybridge.Site.Addresses.{other_lang_href, without_en, copy}

-- On every page the switch to the other language and back leads to the same page: from a Spanish
-- path, which begins with a slash, and from an English one, which begins with "/en/".
pub other_lang_href-other_lang_href :
    (rest : Str)
    → (other_lang_href english (other_lang_href spanish (js "/" ++ rest)) ≡ js "/" ++ rest)
      × (other_lang_href spanish (other_lang_href english (js "/en/" ++ rest)) ≡ js "/en/" ++ rest)
unfolding other_lang_href without_en js str_eq starts_with
other_lang_href-other_lang_href [] = (refl, refl)
other_lang_href-other_lang_href (c ∷ rest) = (refl, refl)

shapes_same : same_shape (copy spanish) (copy english) ≡ true
unfolding same_shape copy js str_eq
shapes_same = refl

-- Whatever part of the copy a component reads, by keys and indices: it is a text in Spanish exactly
-- if it is one in English.
pub text_at-copy :
    (path : List Access)
    → (text_at path (some (copy spanish)) ≡ none) ↔ (text_at path (some (copy english)) ≡ none)
text_at-copy path = text_at-alike path (some (copy spanish)) (some (copy english)) shapes_same
