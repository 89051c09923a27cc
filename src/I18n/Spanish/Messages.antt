-- ===== src/I18n/Spanish/Messages.antt =====
-- frontend/src/lib/i18n.ts, `es`: the settings, the mapping review and the texts for server messages.
use tidybridge.Base.{String, List, [], ◌∷◌}

unfoldable pub es_messages : List (String × String)
es_messages =
    ("settingsIntro", "Actualiza los datos de tu perfil.")
    ∷ ("saved", "Guardado.")
    ∷ ("changePassword", "Cambiar contraseña")
    ∷ ("changing", "Cambiando…")
    ∷ ("leaveBlank", "Déjalo en blanco si no quieres cambiarla.")
    ∷ ("currentPassword", "Contraseña actual")
    ∷ (
      "passwordChangedSignIn",
      "Contraseña cambiada. Se ha cerrado la sesión en todos los dispositivos: inicia sesión con la nueva contraseña.",
    )
    ∷ ("dangerZone", "Zona de peligro")
    ∷ (
      "deleteAccountWarning",
      "Elimina de forma permanente tu cuenta y todos sus registros, subidas y envíos. No se puede deshacer.",
    )
    ∷ ("deleteAccount", "Eliminar cuenta")
    ∷ ("deleteAccountTitle", "¿Eliminar tu cuenta?")
    ∷ ("deleteAccountFailed", "No se pudo eliminar la cuenta. Inténtalo de nuevo.")
    ∷ ("language", "Idioma")
    ∷ ("languageIntro", "El idioma de la aplicación en este navegador.")
    ∷ ("mappingTitle", "Revisar el mapeo de columnas")
    ∷ ("mappingIntro", "Se aplica a esta subida y a las próximas con exactamente estas columnas.")
    ∷ ("colRawColumn", "Columna original")
    ∷ ("colFieldName", "Nombre del campo")
    ∷ ("colType", "Tipo")
    ∷ ("colRequired", "Obligatorio")
    ∷ ("colDedupKey", "Clave de duplicados")
    ∷ ("example", "p. ej. {values}")
    ∷ ("fieldNameRule", "Solo minúsculas, números y guiones bajos; debe empezar por una letra")
    ∷ ("fixFieldNames", "Corrige los nombres de campo de arriba antes de guardar.")
    ∷ ("save", "Guardar")
    ∷ (
      "mappingNothingYet",
      "Aún no hay nada que revisar: vuelve a subir un archivo con este formato.",
    )
    ∷ ("mappingLoadFailed", "No se pudo cargar este mapeo.")
    ∷ ("mappingSaveFailed", "No se pudo guardar este mapeo. Inténtalo de nuevo.")
    ∷ ("unmapped", "sin asignar")
    ∷ ("changeRemapped", "«{raw}» ahora se asigna a «{to}» (antes «{from}»)")
    ∷ ("changeDropped", "«{raw}» ya no se asigna a ningún campo (se quita «{from}»)")
    ∷ ("changeType", "El tipo de «{field}» cambia de {from} a {to}")
    ∷ ("changeRequired", "«{field}» ahora es obligatorio: un valor vacío se marcará")
    ∷ ("changeNotRequired", "«{field}» ya no es obligatorio")
    ∷ ("changeDedupOn", "La detección de duplicados ahora usa: {fields}")
    ∷ ("changeDedupOff", "La detección de duplicados queda desactivada")
    ∷ ("type_string", "Texto")
    ∷ ("type_email", "Email")
    ∷ ("type_date", "Fecha")
    ∷ ("type_currency", "Importe")
    ∷ ("type_integer", "Número entero")
    ∷ ("type_phone", "Teléfono")
    ∷ ("srv_extractorUnsure", "La extracción no está segura: compruébalo con el documento")
    ∷ ("srv_formula", "Empieza como una fórmula de hoja de cálculo: compruébalo con el documento")
    ∷ (
      "srv_checkDigit",
      "El dígito de control no cuadra: no es un NIF/CIF válido. Compruébalo con el documento",
    )
    ∷ ("srv_sameTaxId", "Mismo NIF que el proveedor: comprueba quién emitió la factura")
    ∷ ("srv_totals", "Base + IVA − retención = {a}, pero el total es {b}")
    ∷ ("srv_requiredColumn", "Falta la columna obligatoria en el archivo")
    ∷ ("srv_requiredEmpty", "Campo obligatorio vacío")
    ∷ ("srv_badEmail", "Formato de email no válido")
    ∷ ("srv_badDate", "Fecha no reconocida")
    ∷ ("srv_badAmount", "Importe no reconocido")
    ∷ ("srv_badInteger", "Número entero no reconocido")
    ∷ ("srv_shortPhone", "Teléfono demasiado corto")
    ∷ (
      "srv_unreadable",
      "No se pudo leer «{file}» como CSV o Excel: comprueba que no esté vacío ni dañado y que la extensión corresponda al formato.",
    )
    ∷ ("srv_tooBig", "El archivo supera el límite de {mb} MB")
    ∷ (
      "srv_tooManyRows",
      "Demasiadas filas: {rows} (el máximo es {max} por subida). Divide el archivo y sube las partes.",
    )
    ∷ (
      "srv_tooBigUncompressed",
      "«{file}» es demasiado grande una vez descomprimido (más de {mb} MB).",
    )
    ∷ ("srv_noInvoice", "No se ha encontrado ninguna factura en «{file}»")
    ∷ ("srv_docUnreadable", "No se pudo leer el documento.")
    ∷ ("srv_declined", "El modelo de extracción ha rechazado el documento")
    ∷ (
      "srv_tooManyInvoices",
      "Demasiadas facturas en un solo documento: divídelo en archivos más pequeños",
    )
    ∷ (
      "srv_unavailable",
      "La extracción de facturas no está disponible ahora mismo. Vuelve a intentarlo en un minuto.",
    )
    ∷ (
      "srv_extractionOff",
      "La extracción de facturas no está activada en este servidor: sube un archivo CSV o Excel",
    )
    ∷ ("srv_flagged", "Este registro tiene incidencias: corrígelas o apruébalo primero")
    ∷ ("srv_pwLength", "La contraseña debe tener al menos {n} caracteres")
    ∷ ("srv_pwUpper", "La contraseña debe tener al menos una mayúscula")
    ∷ ("srv_pwLower", "La contraseña debe tener al menos una minúscula")
    ∷ ("srv_pwDigit", "La contraseña debe tener al menos un número")
    ∷ ("srv_pwSpecial", "La contraseña debe tener al menos un carácter especial")
    ∷ ("srv_currentPasswordWrong", "La contraseña actual no es correcta")
    ∷ ("code_LOGIN_BAD_CREDENTIALS", "Email o contraseña incorrectos.")
    ∷ (
      "code_LOGIN_USER_NOT_VERIFIED",
      "Activa tu cuenta con el enlace de invitación que te enviamos por email.",
    )
    ∷ ("code_REGISTER_USER_ALREADY_EXISTS", "Ya existe una cuenta con este email.")
    ∷ (
      "code_RESET_PASSWORD_BAD_TOKEN",
      "Este enlace no es válido o ha caducado. Pide uno nuevo abajo.",
    )
    ∷ ("code_UPDATE_USER_EMAIL_ALREADY_EXISTS", "Ya existe una cuenta con este email.")
    ∷ (
      "code_OAUTH_USER_ALREADY_EXISTS",
      "Ya existe una cuenta con este email. Inicia sesión con tu contraseña.",
    )
    ∷ ("srv_recordNotFound", "Este registro ya no existe. Puede que se haya borrado.")
    ∷ ("srv_runNotFound", "Esta subida ya no existe. Puede que se haya borrado.")
    ∷ (
      "srv_predatesSchema",
      "Este registro es antiguo y no se puede editar: bórralo y vuelve a subir el archivo.",
    )
    ∷ (
      "srv_signupClosed",
      "Por ahora el registro es solo por invitación. Si eres una gestoría, solicita el piloto en tidybridge.dev.",
    )
    ∷ (
      "err_generic",
      "Algo ha fallado. Inténtalo de nuevo; si sigue pasando, escríbenos a hello@tidybridge.dev.",
    )
    ∷ (
      "err_server",
      "Algo ha fallado por nuestra parte. Inténtalo de nuevo en unos minutos; si sigue pasando, escríbenos a hello@tidybridge.dev.",
    )
    ∷ ("err_sessionExpired", "Tu sesión ha caducado. Vuelve a iniciar sesión.")
    ∷ ("err_tooMany", "Demasiados intentos. Espera un minuto y vuelve a probar.")
    ∷ ("err_invalidInput", "Revisa los datos del formulario: hay alguno que no es válido.")
    ∷ (
      "err_offline",
      "No hay conexión con el servidor. Comprueba tu conexión a internet y vuelve a intentarlo.",
    )
    ∷ (
      "code_OAUTH_NOT_AVAILABLE_EMAIL",
      "Tu cuenta de GitHub no comparte ningún email. Regístrate con email y contraseña.",
    )
    ∷ []
