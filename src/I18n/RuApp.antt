-- ===== src/I18n/RuApp.antt =====
-- web/src/i18n.ts, the Russian catalogue, lines 577 to 707.
use vekst.Prelude.{List, [], ◌∷◌, Text}
use vekst.I18n.Message.{msg}

abbrev pub ru_app : List (Text × Text)
ru_app =
    msg "home.title" "Главная"
    ∷ msg "home.imports.count" "Импортировано"
    ∷ msg "home.imports.latest" "Последний"
    ∷ msg "home.review.awaiting" "На проверке"
    ∷ msg "home.reports.net" "Финансовый результат"
    ∷ msg "home.account.title" "Аккаунт"
    ∷ msg "imports.title" "Импорт"
    ∷ msg "imports.upload" "Загрузить файл"
    ∷ msg "imports.chooseSource" "Откуда этот файл?"
    ∷ msg "imports.source.ledger" "Учёт"
    ∷ msg "imports.source.bank" "Банк"
    ∷ msg "imports.sourceNote"
        "Определяет метод учёта и не может быть прочитан из файла. Указание обязательно."
    ∷ msg "imports.col.file" "Файл"
    ∷ msg "imports.col.source" "Источник"
    ∷ msg "imports.col.state" "Статус"
    ∷ msg "imports.col.period" "Период"
    ∷ msg "imports.col.uploaded" "Загружен"
    ∷ msg "imports.counts.imported" "Строк импортировано"
    ∷ msg "imports.counts.duplicates" "Дубликатов пропущено"
    ∷ msg "imports.counts.transfers" "Внутренних переводов"
    ∷ msg "imports.counts.matches" "Предложено сопоставлений"
    ∷ msg "batch.rejected.balance_mismatch"
        "Входящий остаток плюс обороты не равны заявленному исходящему остатку. Из этого файла ничего не сохранено."
    ∷ msg "batch.errors.title" "Ошибки проверки"
    ∷ msg "batch.errors.line" "Строка"
    ∷ msg "batch.errors.download" "Скачать список"
    ∷ msg "batch.balance.title" "Проверка баланса"
    ∷ msg "batch.balance.opening" "Входящий остаток"
    ∷ msg "batch.balance.movements" "Обороты"
    ∷ msg "batch.balance.closing" "Расчётный остаток"
    ∷ msg "batch.balance.declared" "Заявленный остаток"
    ∷ msg "batch.rows.title" "Строки"
    ∷ msg "batch.rows.category" "Категория"
    ∷ msg "batch.rows.unclassified" "Не классифицировано"
    ∷ msg "error.amount_unparseable" "Сумму не удалось прочитать как число."
    ∷ msg "error.date_implausible" "Такой даты не существует."
    ∷ msg "error.currency_unknown" "Недопустимый код валюты ISO-4217."
    ∷ msg "error.debit_and_credit_both_set" "Заполнены и дебет, и кредит."
    ∷ msg "error.description_missing" "Описание пустое."
    ∷ msg "error.upload_missing" "Файл не был получен. Пожалуйста, загрузите его снова."
    ∷ msg "error.file_too_large" "Файл превышает ограничение в 25 МБ."
    ∷ msg "error.object_store_not_configured" "Загрузка файлов не настроена на этом сервере."
    ∷ msg "error.invalid_argument" "Некорректный запрос."
    ∷ msg "error.batch_not_found"
        "Этот импорт больше не существует или принадлежит другой организации."
    ∷ msg "error.not_a_member" "У вас нет доступа к этой организации."
    ∷ msg "error.replacement_character"
        "Файл содержит повреждённый текст. Экспортируйте его заново и повторите попытку."
    ∷ msg "error.account_unresolved" "Не удалось сопоставить счёт из этого файла с уже имеющимся."
    ∷ msg "error.balance_mismatch"
        "Входящий остаток плюс обороты не равны заявленному исходящему остатку."
    ∷ msg "error.row_count_mismatch" "Количество строк не совпадает с заявленным в файле."
    ∷ msg "error.period_gap" "Есть строка вне периода, заявленного в файле."
    ∷ msg "error.mixed_currency" "Этот счёт уже числится в другой валюте."
    ∷ msg "error.duplicate_bank_reference" "Одна и та же проводка встречается в файле дважды."
    ∷ msg "validation.outcome.valid" "Корректно"
    ∷ msg "validation.outcome.valid_with_warnings" "Корректно, с замечаниями"
    ∷ msg "validation.outcome.rejected" "Отклонено"
    ∷ msg "error.validation_not_found"
        "Этот импорт ещё не проверен либо принадлежит другой организации."
    ∷ msg "error.override_reason_too_short"
        "Укажите не менее десяти символов, поясняющих решение об исключении."
    ∷ msg "error.override_requires_approver_role"
        "Исключить предупреждение может только владелец, администратор или утверждающий."
    ∷ msg "error.already_overridden" "Это решение об исключении уже было принято ранее."
    ∷ msg "error.override_only_over_warnings"
        "Файл с ошибками нельзя исключить из проверки — только файл с замечаниями."
    ∷ msg "error.already_imported" "Этот файл уже был импортирован."
    ∷ msg "error.transfer_not_found"
        "Этот перевод больше не существует либо принадлежит другой организации."
    ∷ msg "dedup.level.D2" "Дублируется внутри этого файла"
    ∷ msg "dedup.level.D3" "Уже был импортирован ранее"
    ∷ msg "dedup.transfer.active" "Исключено как перевод между вашими счетами"
    ∷ msg "dedup.transfer.dismissed" "Учтено"
    ∷ msg "error.review_forbidden" "У вас нет прав для решения по этой группе."
    ∷ msg "error.review_outcome_required" "Выберите: утвердить, перевод или не в ОПиУ."
    ∷ msg "error.review_category_required" "Выберите категорию перед утверждением."
    ∷ msg "error.review_category_not_allowed"
        "Перевод или решение «не в ОПиУ» не принимает категорию."
    ∷ msg "error.review_unknown_category"
        "Эта категория больше не существует. Обновите страницу и попробуйте снова."
    ∷ msg "error.review_group_is_empty" "Эта группа уже решена."
    ∷ msg "error.review_decision_already_undone" "Это решение уже отменено."
    ∷ msg "error.review_already_decided" "Кто-то другой уже решил по этой группе."
    ∷ msg "review.title" "Проверка"
    ∷ msg "review.remaining" "осталось"
    ∷ msg "review.suggested" "Предложено"
    ∷ msg "review.legend" "Клавиши"
    ∷ msg "review.key.digit" "открыть раздел или выбрать категорию"
    ∷ msg "review.key.enter" "утвердить контрагента"
    ∷ msg "review.key.transfer" "внутренний перевод"
    ∷ msg "review.key.notPnl" "не в ОПиУ"
    ∷ msg "review.key.move" "следующий · предыдущий"
    ∷ msg "review.key.clear" "сбросить"
    ∷ msg "review.key.back" "на уровень выше"
    ∷ msg "review.tree.root" "Все категории"
    ∷ msg "review.side.expense" "Расходные категории: деньги ушли контрагенту."
    ∷ msg "review.side.income" "Доходные категории: деньги пришли от контрагента."
    ∷ msg "review.side.showAll" "Показать все категории"
    ∷ msg "review.side.showMatching" "Только подходящие по направлению"
    ∷ msg "review.selected" "Выбрано"
    ∷ msg "review.transactions" "Операции"
    ∷ msg "review.groupOf" "из"
    ∷ msg "review.blurb"
        "Классифицируйте контрагента один раз — и каждая операция от него, прошлая и будущая, получит ту же категорию."
    ∷ msg "review.search.placeholder" "Фильтр категорий"
    ∷ msg "review.search.empty" "Категории не найдены"
    ∷ msg "review.action.approve" "Утвердить"
    ∷ msg "review.action.transfer" "Отметить как перевод"
    ∷ msg "review.action.notPnl" "Не в ОПиУ"
    ∷ msg "report.title" "Управленческий ОПиУ"
    ∷ msg "report.tab.table" "Таблица"
    ∷ msg "report.tab.charts" "Графики"
    ∷ msg "report.category" "Категория"
    ∷ msg "report.total" "Итого"
    ∷ msg "report.percentOfRevenue" "% от выручки"
    ∷ msg "report.basis.cash" "Кассовый метод"
    ∷ msg "report.basis.accrual" "Метод начисления"
    ∷ msg "report.basis.note" "определяется источником данных, а не выбором"
    ∷ msg "report.period.from" "С"
    ∷ msg "report.period.to" "По"
    ∷ msg "report.blocked" "Заблокировано"
    ∷ msg "report.blocked.mixed_basis"
        "У этого юридического лица есть и банковские, и учётные импорты без подтверждённого сопоставления между ними. Расчёт отчёта задвоил бы счёт и его оплату, поэтому отчёт не показывается, пока они не будут сверены."
    ∷ msg "report.bucket.unclassified" "Не классифицировано"
    ∷ msg "report.bucket.non_pnl" "Исключено, вне P&L"
    ∷ msg "report.bucket.unallocated" "Не распределено"
    ∷ msg "report.bucket.other_basis" "Другой базис"
    ∷ []
