-- ===== src/I18n/RuSite.antt =====
-- web/src/i18n.ts, the Russian catalogue, lines 446 to 575.
use vekst.Prelude.{List, [], ◌∷◌, Text}
use vekst.I18n.Message.{msg}

abbrev pub ru_site : List (Text × Text)
ru_site =
    msg "app.title" "Veekst"
    ∷ msg "app.tagline" "Управленческая отчётность для собственников бизнеса."
    ∷ msg "a11y.skipToContent" "Перейти к содержимому"
    ∷ msg "notFound.title" "Страница не найдена"
    ∷ msg "notFound.detail" "По этому адресу ничего нет."
    ∷ msg "notFound.cta" "Вернуться в Veekst"
    ∷ msg "signIn.heading" "Вход"
    ∷ msg "signIn.google" "Войти через Google"
    ∷ msg "signIn.blurb" "Вход выполняется через аккаунт Google."
    ∷ msg "signedIn.greeting" "Вы вошли"
    ∷ msg "signedIn.signOut" "Выйти"
    ∷ msg "error.auth_not_configured" "Вход не настроен на этом сервере."
    ∷ msg "error.invalid_flow" "Ссылка для входа устарела или уже использована. Попробуйте ещё раз."
    ∷ msg "error.invalid_token" "Не удалось проверить ответ Google. Попробуйте ещё раз."
    ∷ msg "error.unverified_email" "Адрес электронной почты вашего аккаунта Google не подтверждён."
    ∷ msg "error.email_taken" "Этот адрес электронной почты уже принадлежит другому аккаунту."
    ∷ msg "error.internal_error" "Что-то пошло не так. Попробуйте ещё раз."
    ∷ msg "error.unknown" "Не удалось войти. Попробуйте ещё раз."
    ∷ msg "error.org_name_required" "Введите название организации."
    ∷ msg "error.org_entity_name_required" "Введите название юридического лица."
    ∷ msg "error.org_unsupported_country" "Эта страна пока не поддерживается."
    ∷ msg "error.org_unsupported_currency" "Эта валюта пока не поддерживается."
    ∷ msg "error.org_already_a_member" "Вы уже состоите в организации."
    ∷ msg "firstRun.heading" "Настройте организацию"
    ∷ msg "firstRun.blurb"
        "Одна организация, одно юридическое лицо — для начала. Позже можно пригласить других и добавить больше."
    ∷ msg "firstRun.name" "Название организации"
    ∷ msg "firstRun.entityName" "Название юридического лица"
    ∷ msg "firstRun.market" "Страна и валюта"
    ∷ msg "firstRun.market.by" "Беларусь — BYN"
    ∷ msg "firstRun.market.kz" "Казахстан — KZT"
    ∷ msg "firstRun.market.pl" "Польша — PLN"
    ∷ msg "firstRun.submit" "Создать организацию"
    ∷ msg "firstRun.submitting" "Создание…"
    ∷ msg "state.batch.pending" "Ожидает"
    ∷ msg "state.batch.parsing" "Обработка"
    ∷ msg "state.batch.rejected" "Отклонён"
    ∷ msg "state.batch.imported" "Импортирован"
    ∷ msg "state.report.ready" "Готов"
    ∷ msg "state.report.partial" "Частично"
    ∷ msg "state.report.blocked" "Заблокирован"
    ∷ msg "state.row.classified" "Классифицировано"
    ∷ msg "state.row.needsReview" "На проверку"
    ∷ msg "state.row.blocked" "Заблокировано"
    ∷ msg "nav.primary" "Основное"
    ∷ msg "nav.home" "Главная"
    ∷ msg "nav.imports" "Импорт"
    ∷ msg "nav.review" "Проверка"
    ∷ msg "nav.reports" "Отчёты"
    ∷ msg "nav.awaitingReview" "на проверке"
    ∷ msg "topbar.organisation" "Организация"
    ∷ msg "topbar.entity" "Юр. лицо"
    ∷ msg "topbar.language" "Язык"
    ∷ msg "topbar.theme" "Тема"
    ∷ msg "action.retry" "Повторить"
    ∷ msg "empty.imports.title" "Файлы ещё не импортированы"
    ∷ msg "empty.imports.detail"
        "Загрузите банковскую выписку или выгрузку из учёта. Каждый файл проверяется до сохранения: файл с ошибкой не сохраняет ничего."
    ∷ msg "empty.review.title" "Нечего проверять"
    ∷ msg "empty.review.detail"
        "Здесь появляются операции, которые движок не смог классифицировать уверенно, сгруппированные по контрагенту. Пустая очередь означает, что у каждой импортированной строки есть категория."
    ∷ msg "empty.reports.title" "Отчёта пока нет"
    ∷ msg "empty.reports.detail"
        "Управленческий ОПиУ строится из импортированных операций. Загрузите выписку или выгрузку — и отчёт откроется здесь."
    ∷ msg "empty.batch.title" "Пакет не найден"
    ∷ msg "empty.batch.detail"
        "Этот импорт больше не существует или принадлежит другой организации."
    ∷ msg "chart.expenses.title" "Основные статьи расходов"
    ∷ msg "chart.expenses.note" "Статьи, которые стоили денег за период, от крупных к мелким."
    ∷ msg "chart.cashflow.title" "Поступления и списания"
    ∷ msg "chart.cashflow.note"
        "Деньги, которые реально двигались, по месяцам — включая то, что не попадает в ОПиУ. Оба столбца — величины: списания нарисованы тем, сколько ушло, а не минусом. Переводы между своими счетами считаются отдельно, в блоке сверки."
    ∷ msg "chart.cashflow.net" "Чистое движение"
    ∷ msg "chart.moneyflow.title" "Движение денег"
    ∷ msg "chart.moneyflow.note" "Куда ушла выручка за этот период."
    ∷ msg "chart.moneyflow.unavailable"
        "Рисовать нечего: выручка за период нулевая, то есть нет притока, из которого выходит расходная сторона. Цифры ниже — а отчёт с расходами и без выручки обычно значит проблему с классификацией, а не пустой месяц."
    ∷ msg "chart.moneyflow.totalIn" "Всего поступило"
    ∷ msg "chart.moneyflow.other" "Прочее"
    ∷ msg "chart.netresult.title" "Итог по месяцам"
    ∷ msg "chart.netresult.note"
        "Прибыль или убыток в каждом месяце периода. Убыток рисуется своей величиной, цветом убытка — ось значений здесь начинается с нуля."
    ∷ msg "chart.netresult.series" "Итог"
    ∷ msg "chart.netresult.profit" "Прибыль"
    ∷ msg "chart.netresult.loss" "Убыток"
    ∷ msg "chart.revenueExpense.title" "Выручка и расходы"
    ∷ msg "chart.revenueExpense.note" "Выручка и расходы по ОПиУ, помесячно."
    ∷ msg "chart.revenueExpense.revenue" "Выручка"
    ∷ msg "chart.revenueExpense.expenses" "Расходы"
    ∷ msg "chart.trend.title" "Динамика по категориям"
    ∷ msg "chart.trend.note" "Каждая статья за период, каждая в своём масштабе."
    ∷ msg "chart.view.chart" "График"
    ∷ msg "chart.view.table" "Таблица"
    ∷ msg "landing.cta" "Войти"
    ∷ msg "landing.cta.secondary" "Смотреть отчёт"
    ∷ msg "landing.nav.how" "Как это работает"
    ∷ msg "landing.nav.product" "Отчёт"
    ∷ msg "landing.promise" "Узнайте, сколько бизнес заработал на самом деле."
    ∷ msg "landing.sub"
        "Veekst превращает банковские выписки и учётные данные бухгалтера в управленческий отчёт, который можно раскрыть построчно — вплоть до операции."
    ∷ msg "landing.problem.title" "Банк и бухгалтер противоречат друг другу, и оба правы"
    ∷ msg "landing.problem.body"
        "Выписка показывает, когда деньги пришли. Учёт показывает, когда они заработаны. Ни то ни другое не является управленческим отчётом, а сверять их вручную каждый месяц — это потерянный вечер. Поэтому цифры приходят поздно, округлённо или на уровне ощущений."
    ∷ msg "landing.how.title" "Три шага — и отчёт открыт"
    ∷ msg "landing.how.1.title" "Загрузите то, что уже есть"
    ∷ msg "landing.how.1.body"
        "Банковские и учётные выгрузки, CSV или XLSX. Каждый файл проверяется до сохранения: файл с ошибкой не сохраняет ничего, а ошибки перечислены по номерам строк вашего исходного файла."
    ∷ msg "landing.how.2.title" "Движок классифицирует данные"
    ∷ msg "landing.how.2.body"
        "Сначала детерминированные правила, затем — запомненные ваши исправления. Всё, в чём движок не уверен, попадает в очередь проверки, а не угадывается."
    ∷ msg "landing.how.3.title" "Читайте отчёт"
    ∷ msg "landing.how.3.body"
        "Категории по строкам, месяцы по столбцам. Любая сумма раскрывается до операций, и каждая несёт правило, которое её классифицировало, и уверенность."
    ∷ msg "landing.product.title" "Вот такой отчёт"
    ∷ msg "landing.product.body"
        "Не скриншот — тот же компонент, что рендерит приложение, на демонстрационных данных. Метод учёта указан там, где вы читаете, строка, которую нельзя посчитать честно, говорит об этом вместо догадки, а сверка доказывает, что ничего не потеряно."
    ∷ msg "landing.close.title" "Посмотрите на своих данных"
    ∷ msg "landing.rights" "Управленческая отчётность для собственников бизнеса."
    ∷ []
