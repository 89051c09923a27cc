-- ===== src/I18n/Spanish/Layout.antt =====
-- frontend/src/lib/i18n.ts, `es`: the layout, the shared words and the records page.
use tidybridge.Base.{String, List, [], ◌∷◌}

unfoldable pub es_layout : List (String × String)
es_layout =
    ("skipToContent", "Saltar al contenido")
    ∷ ("uploadHistory", "Historial de subidas")
    ∷ ("accountSettings", "Ajustes de la cuenta")
    ∷ ("logOut", "Cerrar sesión")
    ∷ ("privacyPolicy", "Política de privacidad")
    ∷ ("terms", "Términos del servicio")
    ∷ ("dataProcessing", "Tratamiento de datos")
    ∷ ("hello", "Hola, {name}")
    ∷ ("dismiss", "Cerrar")
    ∷ ("dismissError", "Cerrar el error")
    ∷ ("loading", "Cargando…")
    ∷ ("review", "Revisar")
    ∷ ("noRecordsYet", "Aún no hay registros. Sube un archivo para empezar.")
    ∷ ("cancel", "Cancelar")
    ∷ ("delete", "Eliminar")
    ∷ ("deleting", "Eliminando…")
    ∷ ("export", "Exportar")
    ∷ ("statusClean", "Correcto")
    ∷ ("statusNeedsReview", "Por revisar")
    ∷ ("statusApproved", "Aprobado")
    ∷ ("records", "Registros")
    ∷ ("exportCsv", "Exportar CSV")
    ∷ ("exporting", "Exportando…")
    ∷ ("uploadFileOrInvoice", "Subir archivo o factura")
    ∷ ("uploadFile", "Subir archivo")
    ∷ ("uploading", "Subiendo…")
    ∷ ("uploadingNotice", "Limpiando e importando el archivo. Si es grande, puede tardar un poco.")
    ∷ ("mappingSaved", "Mapeo guardado.")
    ∷ ("noChanges", "Sin cambios.")
    ∷ ("rowsProcessed_one", "{count} fila procesada")
    ∷ ("rowsProcessed_other", "{count} filas procesadas")
    ∷ ("clean_one", "correcta")
    ∷ ("clean_other", "correctas")
    ∷ ("needReview_one", "por revisar")
    ∷ ("needReview_other", "por revisar")
    ∷ ("duplicatesSkipped_one", "duplicado omitido")
    ∷ ("duplicatesSkipped_other", "duplicados omitidos")
    ∷ ("alreadyImported_one", "ya importado")
    ∷ ("alreadyImported_other", "ya importados")
    ∷ ("viewHistory", "Ver historial")
    ∷ ("statTotal", "Total")
    ∷ ("statClean", "Correctos")
    ∷ ("statNeedsReview", "Por revisar")
    ∷ ("statApproved", "Aprobados")
    ∷ ("allUploads", "Todas las subidas")
    ∷ ("filterByUpload", "Filtrar por subida")
    ∷ ("uploads", "Subidas")
    ∷ ("seeAllUploads", "Ver todas en el historial →")
    ∷ ("searchRecords", "Buscar…")
    ∷ ("searchRecordsLabel", "Buscar registros")
    ∷ ("noMatches", "Ningún registro coincide con el filtro o la búsqueda.")
    ∷ ("selectAll", "Seleccionar todo")
    ∷ ("selectRecord", "Seleccionar registro {id}")
    ∷ ("status", "Estado")
    ∷ ("deleteCount", "Eliminar ({count})")
    ∷ ("deleteRecordTitle", "¿Eliminar este registro?")
    ∷ ("deleteRecordsTitle_one", "¿Eliminar {count} registro?")
    ∷ ("deleteRecordsTitle_other", "¿Eliminar {count} registros?")
    ∷ ("deleteRecordMessage", "Se eliminará el registro de forma permanente. No se puede deshacer.")
    ∷ (
      "deleteRecordMessageWebhooks",
      "Se eliminarán el registro y su historial de envíos por webhook de forma permanente. No se puede deshacer.",
    )
    ∷ (
      "deleteRecordsMessage",
      "Se eliminarán los registros seleccionados de forma permanente. No se puede deshacer.",
    )
    ∷ (
      "deleteRecordsMessageWebhooks",
      "Se eliminarán los registros seleccionados y su historial de envíos por webhook de forma permanente. No se puede deshacer.",
    )
    ∷ ("loadRecordsFailed", "No se pudieron cargar los registros.")
    ∷ ("uploadFailed", "Error al subir el archivo.")
    ∷ ("exportFailed", "Error al exportar.")
    ∷ ("deleteRecordFailed", "No se pudo eliminar el registro.")
    ∷ ("deleteRecordsFailed", "No se pudieron eliminar los registros seleccionados.")
    ∷ ("newShape", "Formato nuevo: ¿revisas los campos que hemos detectado?")
    ∷ ("reviewMapping", "Revisar mapeo")
    ∷ []
