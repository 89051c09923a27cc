-- ===== src/I18n/English.antt =====
-- frontend/src/lib/i18n.ts: the English dictionary `en`, in three parts.
mod Layout
mod Pages
mod Messages
use tidybridge.Base.{String, List, ◌++◌}
use Layout.{en_layout}
use Pages.{en_pages}
use Messages.{en_messages}

unfoldable pub en : List (String × String)
unfolding en_layout en_pages en_messages
en = en_layout ++ (en_pages ++ en_messages)
