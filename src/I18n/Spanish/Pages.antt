-- ===== src/I18n/Spanish/Pages.antt =====
-- frontend/src/lib/i18n.ts, `es`: the history, detail, field-label and sign-in texts.
use tidybridge.Base.{String, List, [], ◌∷◌}

unfoldable pub es_pages : List (String × String)
es_pages =
    ("uploadHistoryIntro", "Cada archivo que has subido y qué ha pasado con cada fila.")
    ∷ ("noUploadsYet", "Aún no hay subidas.")
    ∷ ("uploadAFile", "Sube un archivo")
    ∷ ("toStart", "para empezar.")
    ∷ ("colFile", "Archivo")
    ∷ ("colUploaded", "Subido")
    ∷ ("colTotalRows", "Filas")
    ∷ ("colClean", "Correctas")
    ∷ ("colNeedReview", "Por revisar")
    ∷ ("colDuplicates", "Duplicados")
    ∷ ("colAlreadyImported", "Ya importados")
    ∷ ("viewRecords", "Ver registros")
    ∷ ("loadUploadsFailed", "No se pudo cargar el historial de subidas.")
    ∷ ("exportUploadFailed", "No se pudieron exportar los registros de esta subida.")
    ∷ ("backToRecords", "← Volver a registros")
    ∷ ("unnamedRecord", "Registro sin nombre")
    ∷ ("edit", "Editar")
    ∷ ("saveChanges", "Guardar cambios")
    ∷ ("saving", "Guardando…")
    ∷ ("sourceFile", "Archivo de origen")
    ∷ ("imported", "Importado")
    ∷ ("issues", "Incidencias")
    ∷ (
      "heldForReview",
      "No se envía a ningún sistema hasta que corrijas estas incidencias o apruebes el registro tal cual.",
    )
    ∷ ("approve", "Aprobar")
    ∷ ("approving", "Aprobando…")
    ∷ ("approvedOn", "Aprobado el {date}")
    ∷ ("recordNotFound", "Registro no encontrado.")
    ∷ ("loadRecordFailed", "No se pudo cargar el registro.")
    ∷ ("saveFailed", "No se pudieron guardar los cambios.")
    ∷ ("approveFailed", "No se pudo aprobar el registro.")
    ∷ ("webhookDeliveries", "Envíos por webhook")
    ∷ ("resendWebhook", "Reenviar webhook")
    ∷ ("resending", "Reenviando…")
    ∷ ("resendFailed", "No se pudo reenviar el webhook.")
    ∷ (
      "noWebhookYet",
      "No hay webhook configurado o aún no se ha intentado ningún envío para este registro.",
    )
    ∷ ("copyWebhookUrl", "Copiar la URL del webhook")
    ∷ ("colAttempt", "Intento")
    ∷ ("colAttempted", "Fecha")
    ∷ ("colStatus", "Estado")
    ∷ ("colResult", "Resultado")
    ∷ ("delivered", "Entregado")
    ∷ ("failed", "Fallido")
    ∷ ("provisioning", "Aprovisionamiento")
    ∷ ("retryProvisioning", "Reintentar aprovisionamiento")
    ∷ ("retrying", "Reintentando…")
    ∷ ("retryProvisioningFailed", "No se pudo reintentar el aprovisionamiento.")
    ∷ ("provisionedAs", "Aprovisionado como {id} en el sistema de destino.")
    ∷ (
      "noProvisioningYet",
      "No hay sistema de destino configurado o aún no se ha intentado ningún aprovisionamiento para este registro.",
    )
    ∷ ("provisioned", "Aprovisionado")
    ∷ ("alreadyExisted", "Ya existía")
    ∷ ("retryingAttempt", "Reintentando (intento {n})")
    ∷ ("deliveryPending", "Envío pendiente")
    ∷ ("provisioningPending", "Aprovisionamiento pendiente")
    ∷ ("awaitingReview", "Esperando revisión")
    ∷ ("deliveryFailedPermanently", "El envío ha fallado definitivamente")
    ∷ ("provisioningFailedPermanently", "El aprovisionamiento ha fallado definitivamente")
    ∷ ("field_supplier_name", "Proveedor")
    ∷ ("field_supplier_tax_id", "NIF proveedor")
    ∷ ("field_customer_name", "Cliente")
    ∷ ("field_customer_tax_id", "NIF cliente")
    ∷ ("field_invoice_number", "Nº factura")
    ∷ ("field_invoice_date", "Fecha")
    ∷ ("field_currency", "Moneda")
    ∷ ("field_net_amount", "Base imponible")
    ∷ ("field_vat_amount", "IVA")
    ∷ ("field_withholding_amount", "Retención IRPF")
    ∷ ("field_total_amount", "Total")
    ∷ ("field_full_name", "Nombre")
    ∷ ("field_email", "Email")
    ∷ ("field_signup_date", "Fecha de alta")
    ∷ ("field_amount", "Importe")
    ∷ ("field_phone", "Teléfono")
    ∷ ("somethingWentWrong", "Algo ha fallado. Inténtalo de nuevo.")
    ∷ ("or", "o")
    ∷ ("signIn", "Iniciar sesión")
    ∷ ("signingIn", "Iniciando sesión…")
    ∷ ("signInIntro", "Accede a tus registros.")
    ∷ ("passwordResetDone", "Contraseña restablecida. Inicia sesión con la nueva contraseña.")
    ∷ ("email", "Email")
    ∷ ("password", "Contraseña")
    ∷ ("forgotPassword", "¿Has olvidado la contraseña?")
    ∷ ("continueWithGitHub", "Continuar con GitHub")
    ∷ ("noAccount", "¿No tienes cuenta?")
    ∷ ("firstName", "Nombre")
    ∷ ("lastName", "Apellidos")
    ∷ ("agreeTo", "Acepto los")
    ∷ ("and", "y la")
    ∷ ("agreeOwnData", ", incluido que tengo derecho a compartir los datos de clientes que suba.")
    ∷ ("resetTitle", "Restablece tu contraseña")
    ∷ (
      "resetIntro",
      "Escribe tu email y, si está registrado, te enviaremos un enlace para restablecer la contraseña.",
    )
    ∷ (
      "resetSent",
      "Si existe una cuenta para {email}, te hemos enviado un enlace. Caduca en 1 hora.",
    )
    ∷ ("oauthOnly", "{email} inicia sesión solo con GitHub: no hay contraseña que restablecer.")
    ∷ (
      "addPasswordLater",
      "Puedes añadir una contraseña a esta cuenta en Ajustes de la cuenta cuando hayas iniciado sesión.",
    )
    ∷ ("sendResetLink", "Enviar enlace")
    ∷ ("sending", "Enviando…")
    ∷ ("backToSignIn", "Volver a iniciar sesión")
    ∷ ("tooManyAttempts", "Demasiados intentos. Espera un minuto y vuelve a probar.")
    ∷ ("newPasswordTitle", "Elige una contraseña nueva")
    ∷ ("linkOnce", "Este enlace solo funciona una vez y caduca una hora después de pedirlo.")
    ∷ (
      "linkMissingToken",
      "A este enlace le falta el código de restablecimiento. Pide uno nuevo abajo.",
    )
    ∷ ("requestNewLink", "Pedir un enlace nuevo")
    ∷ ("newPassword", "Contraseña nueva")
    ∷ ("confirmNewPassword", "Repite la contraseña nueva")
    ∷ ("resetPassword", "Restablecer contraseña")
    ∷ ("resetting", "Restableciendo…")
    ∷ ("passwordsDontMatch", "Las contraseñas no coinciden.")
    ∷ ("resetLinkInvalid", "Este enlace no es válido o ha caducado. Pide uno nuevo abajo.")
    ∷ ("acceptInviteTitle", "Activa tu cuenta")
    ∷ (
      "acceptInviteIntro",
      "Elige la contraseña con la que entrarás en tidybridge. El enlace caduca 7 días después de recibirlo.",
    )
    ∷ ("acceptInvite", "Activar cuenta")
    ∷ (
      "inviteLinkInvalid",
      "Este enlace de invitación no es válido o ha caducado. Escríbenos a hello@tidybridge.dev y te enviamos uno nuevo.",
    )
    ∷ ("inviteAlreadyAccepted", "Esta invitación ya se ha usado. Inicia sesión con tu contraseña.")
    ∷ ("inviteAcceptedSignIn", "Cuenta activada. Ya puedes iniciar sesión.")
    ∷ ("requestPilot", "Solicita el piloto")
    ∷ ("invitePilotTitle", "Invitar a tidybridge")
    ∷ ("pilotFirm", "Gestoría")
    ∷ ("pilotName", "Nombre")
    ∷ ("sendInvite", "Enviar invitación")
    ∷ (
      "inviteSent",
      "Invitación enviada a {email}. El enlace caduca en 7 días; si hace falta, vuelve aquí para enviar uno nuevo.",
    )
    ∷ ("inviteAlreadyActive", "{email} ya ha activado su cuenta: puede iniciar sesión.")
    ∷ ("adminOnly", "No tienes permiso para ver esta página.")
    ∷ (
      "pilotRequestGone",
      "Esta solicitud ya no existe (puede que se haya borrado por el plazo de retención).",
    )
    ∷ ("oneMoreStep", "Un paso más")
    ∷ (
      "githubNoName",
      "{email} ha iniciado sesión con GitHub, que no comparte nombre ni teléfono: rellénalos para continuar.",
    )
    ∷ ("continue", "Continuar")
    ∷ ("githubNoToken", "GitHub no ha devuelto el inicio de sesión. Inténtalo de nuevo.")
    ∷ ("signInFailed", "No se pudo completar el inicio de sesión. Inténtalo de nuevo.")
    ∷ ("signingYouIn", "Iniciando sesión…")
    ∷ ("showPassword", "Mostrar contraseña")
    ∷ ("hidePassword", "Ocultar contraseña")
    ∷ ("ruleMet", " - cumplido")
    ∷ ("ruleNotMet", " - aún no")
    ∷ ("ruleLength", "Al menos 8 caracteres")
    ∷ ("ruleUpper", "Una mayúscula")
    ∷ ("ruleLower", "Una minúscula")
    ∷ ("ruleDigit", "Un número")
    ∷ ("ruleSpecial", "Un carácter especial")
    ∷ ("phone", "Teléfono")
    ∷ ("optional", "(opcional)")
    ∷ ("countryCode", "Prefijo del país")
    ∷ ("lightTheme", "Cambiar a tema claro")
    ∷ ("darkTheme", "Cambiar a tema oscuro")
    ∷ ("copy", "Copiar")
    ∷ ("copied", "Copiado")
    ∷ []
