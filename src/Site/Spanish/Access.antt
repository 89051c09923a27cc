-- ===== src/Site/Spanish/Access.antt =====
-- marketing/src/i18n.ts, `es`: pilot, security, faq, form, fields, footer.
use tidybridge.Base.{[], ◌∷◌}
use tidybridge.Site.Copy.{Copy, text, object, array}

abbrev pub es_pilot : Copy
es_pilot = object (
    ("title", text "Cómo empezar, paso a paso")
    ∷ (
      "steps",
      array (
          object (
            ("when", text "1 · Acceso")
            ∷ (
              "text",
              text "Aceptas el acuerdo de tratamiento de datos (DPA) y te enviamos una invitación.",
            )
            ∷ [])
          ∷ object (
              ("when", text "2 · Subes")
              ∷ (
                "text",
                text
                    "Las facturas de un cliente, en PDF o fotos. Te ayudamos con la primera subida.",
              )
              ∷ [])
          ∷ object (
              ("when", text "3 · Revisas")
              ∷ (
                "text",
                text "Solo lo marcado, y exportas a CSV o Excel para tu programa contable.",
              )
              ∷ [])
          ∷ []),
    )
    ∷ ("dpa", text "Es gratis: tidybridge es un proyecto personal y de código abierto.")
    ∷ [])

abbrev pub es_security : Copy
es_security = object (
    ("title", text "Seguridad y privacidad")
    ∷ (
      "cards",
      array (
          object (
            ("title", text "Servidores en la UE")
            ∷ (
              "text",
              text
                  "El servidor y la base de datos están en Ámsterdam; la extracción, con Mistral AI (Francia).",
            )
            ∷ [])
          ∷ object (
              ("title", text "RGPD y DPA")
              ∷ ("text", text "Firmamos un DPA antes de que subas ninguna factura.")
              ∷ [])
          ∷ object (
              ("title", text "Sin entrenar modelos")
              ∷ ("text", text "No entrenamos modelos con tus facturas, y Mistral tampoco.")
              ∷ [])
          ∷ object (
              ("title", text "Borrado cuando lo pidas")
              ∷ ("text", text "Puedes borrar cualquier dato en cualquier momento.")
              ∷ [])
          ∷ []),
    )
    ∷ ("more", text "Detalles en la política de privacidad y el DPA")
    ∷ ("code", text "Código abierto (MIT) · ver en GitHub")
    ∷ [])

abbrev pub es_faq : Copy
es_faq = object (
    ("title", text "Preguntas frecuentes")
    ∷ (
      "items",
      array (
          object (
            ("q", text "¿Qué formatos aceptáis?")
            ∷ (
              "a",
              text
                  "PDF y fotos (JPG, PNG, WebP), además de CSV y Excel. Las fotos HEIC del iPhone, todavía no.",
            )
            ∷ [])
          ∷ object (
              ("q", text "¿Con qué programa contable funciona?")
              ∷ (
                "a",
                text
                    "Hoy exportamos a CSV y Excel, que puede importar cualquier programa contable. Las integraciones directas llegarán más adelante.",
              )
              ∷ [])
          ∷ object (
              ("q", text "¿Qué pasa con el RGPD?")
              ∷ (
                "a",
                text
                    "Tú eres el responsable de los datos de tus clientes y nosotros el encargado del tratamiento. Firmamos un DPA antes de empezar, y los servidores están en la UE.",
              )
              ∷ [])
          ∷ object (
              ("q", text "¿Cuánto cuesta?")
              ∷ (
                "a",
                text
                    "Es gratis: tidybridge es un proyecto personal y de código abierto. Si algún día deja de serlo o se cierra, te avisamos con 30 días de antelación y puedes exportar tus datos.",
              )
              ∷ [])
          ∷ object (
              ("q", text "¿Y si se equivoca?")
              ∷ (
                "a",
                text
                    "Marca lo que no tiene claro para que lo revises, y nada sale hacia otros sistemas sin tu aprobación.",
              )
              ∷ [])
          ∷ []),
    )
    ∷ [])

abbrev pub es_form : Copy
es_form = object (
    ("title", text "Solicitar acceso gratuito")
    ∷ ("intro", text "Cuéntanos quién eres y te escribimos en 2 días laborables.")
    ∷ ("name", text "Nombre")
    ∷ ("firm", text "Gestoría")
    ∷ ("email", text "Email")
    ∷ ("phone", text "Teléfono (opcional)")
    ∷ ("volume", text "¿Cuántas facturas al mes? (opcional)")
    ∷ (
      "volumeOptions",
      object (
          ("<100", text "Menos de 100")
          ∷ ("100-500", text "100–500")
          ∷ ("500+", text "Más de 500")
          ∷ []),
    )
    ∷ ("message", text "Mensaje (opcional)")
    ∷ ("privacyBefore", text "He leído la ")
    ∷ ("privacyLink", text "política de privacidad")
    ∷ ("privacyAfter", text ".")
    ∷ ("submit", text "Enviar solicitud")
    ∷ ("sending", text "Enviando…")
    ∷ ("success", text "¡Gracias! Te escribimos en 2 días laborables.")
    ∷ ("error", text "No hemos podido enviar la solicitud. Inténtalo de nuevo o escríbenos a")
    ∷ ("orEmail", text "¿Prefieres el email? Escríbenos a")
    ∷ [])

abbrev pub es_fields : Copy
es_fields = object (
    ("supplier_name", text "Proveedor")
    ∷ ("supplier_tax_id", text "NIF proveedor")
    ∷ ("invoice_number", text "Nº factura")
    ∷ ("invoice_date", text "Fecha")
    ∷ ("net_amount", text "Base imponible")
    ∷ ("vat_amount", text "IVA")
    ∷ ("withholding_amount", text "Retención IRPF")
    ∷ ("total_amount", text "Total")
    ∷ ("validTaxId", text "dígito de control correcto")
    ∷ [])

abbrev pub es_footer : Copy
es_footer = object (
    ("product", text "Producto")
    ∷ ("legal", text "Legal")
    ∷ ("developers", text "Para desarrolladores")
    ∷ ("terms", text "Términos del servicio")
    ∷ ("privacy", text "Política de privacidad")
    ∷ ("dpa", text "Acuerdo de tratamiento de datos")
    ∷ ("contact", text "Contacto")
    ∷ ("github", text "tidybridge en GitHub")
    ∷ ("tidycsv", text "tidycsv en GitHub")
    ∷ ("openSource", text "Código abierto")
    ∷ [])
