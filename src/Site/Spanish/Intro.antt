-- ===== src/Site/Spanish/Intro.antt =====
-- marketing/src/i18n.ts, `es`: nav, hero, problem, how, samples, control.
use tidybridge.Base.{[], ◌∷◌}
use tidybridge.Site.Copy.{Copy, text, object, array}

abbrev pub es_nav : Copy
es_nav = object (
    ("how", text "Cómo funciona")
    ∷ ("security", text "Seguridad")
    ∷ ("faq", text "Preguntas")
    ∷ ("signIn", text "Iniciar sesión")
    ∷ ("pilot", text "Acceso gratuito")
    ∷ ("menu", text "Menú")
    ∷ ("skip", text "Saltar al contenido")
    ∷ ("main", text "Principal")
    ∷ ("switchTo", text "English")
    ∷ ("switchShort", text "EN")
    ∷ (
      "theme",
      object (("light", text "Cambiar a tema claro") ∷ ("dark", text "Cambiar a tema oscuro") ∷ []),
    )
    ∷ [])

abbrev pub es_hero : Copy
es_hero = object (
    ("title", text "Las facturas de tus clientes, listas para tu programa contable.")
    ∷ (
      "subtitle",
      text
          "Sube PDFs o fotos. Extraemos NIF, base, IVA y retención, y marcamos lo dudoso para que lo revises. Sin teclear.",
    )
    ∷ ("cta", text "Solicitar acceso gratuito")
    ∷ ("secondary", text "Ver cómo funciona")
    ∷ ("demoLabel", text "Ejemplo: una factura y los datos que extraemos de ella")
    ∷ [])

abbrev pub es_problem : Copy
es_problem = object (
    ("title", text "Cada trimestre, cientos de facturas tecleadas a mano.")
    ∷ (
      "points",
      array (
          text "Horas copiando NIF, bases e IVA de PDFs y fotos."
          ∷ text "Un dígito mal tecleado y el modelo no cuadra."
          ∷ text "Y todo llega a la vez, al cierre del trimestre."
          ∷ []),
    )
    ∷ [])

abbrev pub es_how : Copy
es_how = object (
    ("title", text "Cómo funciona")
    ∷ (
      "screenAlt",
      text
          "La tabla de registros de tidybridge con tres facturas extraídas, una de ellas por revisar",
    )
    ∷ (
      "steps",
      array (
          object (
            ("title", text "Envías las facturas")
            ∷ ("text", text "PDFs o fotos del móvil, de uno o de varios clientes.")
            ∷ [])
          ∷ object (
              ("title", text "Extraemos y comprobamos")
              ∷ (
                "text",
                text
                    "Proveedor, cliente, NIF, fechas, base, IVA y retención. Comprobamos el dígito de control del NIF, que los totales cuadren y que no haya facturas repetidas.",
              )
              ∷ [])
          ∷ object (
              ("title", text "Revisas y exportas")
              ∷ (
                "text",
                text
                    "Revisas solo lo marcado y exportas a CSV o Excel para importarlo en tu programa contable.",
              )
              ∷ [])
          ∷ []),
    )
    ∷ [])

abbrev pub es_samples : Copy
es_samples = object (
    ("title", text "Pruébalo con una factura de ejemplo")
    ∷ ("intro", text "Facturas inventadas, ya procesadas. Elige una y mira qué extraemos.")
    ∷ ("tabs", text "Facturas de ejemplo")
    ∷ ("extracted", text "Datos extraídos")
    ∷ ("noIssues", text "Sin incidencias")
    ∷ [])

abbrev pub es_control : Copy
es_control = object (
    ("title", text "La IA propone. Tú apruebas.")
    ∷ (
      "intro",
      text
          "Lo que no está claro se marca, con el motivo. Los registros marcados no se envían a ningún sistema hasta que los corrijas o los apruebes.",
    )
    ∷ (
      "checks",
      array (
          text "NIF con un dígito de control que no cuadra"
          ∷ text "Base + IVA − retención que no da el total"
          ∷ text "Datos poco legibles en el documento"
          ∷ text "La misma factura subida dos veces"
          ∷ []),
    )
    ∷ ("alt", text "Revisión de una factura con una incidencia marcada")
    ∷ [])
