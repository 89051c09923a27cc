-- ===== src/I18n/Spanish.antt =====
-- frontend/src/lib/i18n.ts: the Spanish dictionary `es`, in three parts.
mod Layout
mod Pages
mod Messages
use tidybridge.Base.{String, List, ◌++◌}
use Layout.{es_layout}
use Pages.{es_pages}
use Messages.{es_messages}

unfoldable pub es : List (String × String)
unfolding es_layout es_pages es_messages
es = es_layout ++ (es_pages ++ es_messages)
