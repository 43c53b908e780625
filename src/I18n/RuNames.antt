-- ===== src/I18n/RuNames.antt =====
-- web/src/i18n.ts, the Russian catalogue, lines 709 to 842.
use vekst.Prelude.{List, [], ◌∷◌, Text}
use vekst.I18n.Message.{msg}

abbrev pub ru_names : List (Text × Text)
ru_names =
    msg "line.01" "Выручка"
    ∷ msg "line.02" "Себестоимость продаж"
    ∷ msg "line.03" "Прочая себестоимость"
    ∷ msg "line.04" "Операционные расходы"
    ∷ msg "line.05" "Прочие доходы и расходы"
    ∷ msg "line.06" "Финансовые доходы и расходы"
    ∷ msg "line.07" "Налог на прибыль"
    ∷ msg "line.08" "Капитальные затраты"
    ∷ msg "line.09" "Вне ОПиУ"
    ∷ msg "line.91" "Валовая прибыль"
    ∷ msg "line.92" "Чистая маржа"
    ∷ msg "line.93" "Маржинальная прибыль"
    ∷ msg "line.94" "Прибыль до налогообложения"
    ∷ msg "line.95" "Чистая прибыль"
    ∷ msg "category.0101" "Разработка ПО"
    ∷ msg "category.02" "Себестоимость продаж"
    ∷ msg "category.030101" "Комиссия за продвижение"
    ∷ msg "category.0401010101" "Зарплата"
    ∷ msg "category.0401010201" "1С Облако"
    ∷ msg "category.0401010202" "Бухгалтерские услуги"
    ∷ msg "category.0401010203" "Аудит"
    ∷ msg "category.0401010204" "Банковская комиссия"
    ∷ msg "category.0401010205" "Электронный документооборот"
    ∷ msg "category.0401010206" "Учёт рабочего времени"
    ∷ msg "category.0401020101" "Зарплата"
    ∷ msg "category.0401020201" "Командировки"
    ∷ msg "category.0401020202" "Связь"
    ∷ msg "category.0401020203" "Домен"
    ∷ msg "category.0401020204" "Обучение"
    ∷ msg "category.0401020205" "Хранение файлов"
    ∷ msg "category.0401020206" "Хостинг"
    ∷ msg "category.0401020207" "Ремонт IT-оборудования"
    ∷ msg "category.0401020208" "Аренда офиса"
    ∷ msg "category.0401020209" "Офисные принадлежности"
    ∷ msg "category.0401020210" "Мелкое IT-оборудование"
    ∷ msg "category.0401020211" "Спорт"
    ∷ msg "category.0401020212" "Канцтовары"
    ∷ msg "category.0401030101" "HR-инструменты"
    ∷ msg "category.0401040101" "Претензии"
    ∷ msg "category.0401040102" "Суд"
    ∷ msg "category.0401040103" "Аренда (юр. лицо)"
    ∷ msg "category.0401040104" "Юридические — прочее"
    ∷ msg "category.0401040105" "Релокация"
    ∷ msg "category.0401050101" "Обучение"
    ∷ msg "category.0401050102" "HeadHunter"
    ∷ msg "category.0402010101" "Зарплата"
    ∷ msg "category.0402010201" "Создание контента"
    ∷ msg "category.0402010202" "Google Реклама"
    ∷ msg "category.0402010203" "MarTech-инструменты"
    ∷ msg "category.0402010204" "Маркетинговые каналы"
    ∷ msg "category.0402010205" "Реклама на маркетплейсах"
    ∷ msg "category.0402010206" "Мерч для сотрудников"
    ∷ msg "category.0402010207" "SEO"
    ∷ msg "category.0402020101" "Зарплата"
    ∷ msg "category.0402020201" "Мероприятия по продажам"
    ∷ msg "category.0402020202" "Инструменты продаж"
    ∷ msg "category.0403" "Налоги на ФОТ к распределению"
    ∷ msg "category.0404" "ФОТ к распределению"
    ∷ msg "category.0405010101" "Обучение"
    ∷ msg "category.0405010102" "Зарплата"
    ∷ msg "category.0405010201" "Инструменты дизайна"
    ∷ msg "category.0405010202" "Инструменты разработки"
    ∷ msg "category.0405010203" "Зарплата"
    ∷ msg "category.0406" "Twoj StartUp"
    ∷ msg "category.050101" "Компенсация расходов"
    ∷ msg "category.050102" "Расходы за 2022 год"
    ∷ msg "category.05010301" "1%, Парк высоких технологий"
    ∷ msg "category.05010302" "Авансовый налог"
    ∷ msg "category.05010303" "Членство в Парке высоких технологий"
    ∷ msg "category.05010304" "Прочее"
    ∷ msg "category.05010305" "НДС"
    ∷ msg "category.050104" "Налоговые штрафы"
    ∷ msg "category.050201" "Возврат налога на прибыль"
    ∷ msg "category.050202" "Возврат платежа"
    ∷ msg "category.060101" "Обмен валюты"
    ∷ msg "category.060102" "Переоценка валюты"
    ∷ msg "category.060201" "Полученные проценты"
    ∷ msg "category.07" "Налог на прибыль"
    ∷ msg "category.08" "Капитальные затраты"
    ∷ msg "category.09" "Вне ОПиУ"
    ∷ msg "categoryBranch.0301" "Продвижение"
    ∷ msg "categoryBranch.0401" "Администрирование"
    ∷ msg "categoryBranch.040101" "Финансы"
    ∷ msg "categoryBranch.04010101" "Расходы"
    ∷ msg "categoryBranch.04010102" "Услуги"
    ∷ msg "categoryBranch.040102" "Общее управление"
    ∷ msg "categoryBranch.04010201" "Расходы"
    ∷ msg "categoryBranch.04010202" "Услуги"
    ∷ msg "categoryBranch.040103" "HR"
    ∷ msg "categoryBranch.04010301" "Услуги"
    ∷ msg "categoryBranch.040104" "Юридический отдел"
    ∷ msg "categoryBranch.04010401" "Услуги"
    ∷ msg "categoryBranch.040105" "Рекрутинг"
    ∷ msg "categoryBranch.04010501" "Услуги"
    ∷ msg "categoryBranch.0402" "Маркетинг и продажи"
    ∷ msg "categoryBranch.040201" "Маркетинг"
    ∷ msg "categoryBranch.04020101" "Расходы"
    ∷ msg "categoryBranch.04020102" "Услуги"
    ∷ msg "categoryBranch.040202" "Продажи"
    ∷ msg "categoryBranch.04020201" "Расходы"
    ∷ msg "categoryBranch.04020202" "Услуги"
    ∷ msg "categoryBranch.0405" "Производство"
    ∷ msg "categoryBranch.040501" "Разработчики"
    ∷ msg "categoryBranch.04050101" "Расходы"
    ∷ msg "categoryBranch.04050102" "Услуги"
    ∷ msg "categoryBranch.0501" "Прочие расходы"
    ∷ msg "categoryBranch.050103" "Прочие налоги"
    ∷ msg "categoryBranch.0502" "Прочие доходы"
    ∷ msg "categoryBranch.0601" "Курсовые разницы"
    ∷ msg "categoryBranch.0602" "Прочие финансовые доходы"
    ∷ msg "recon.title" "Сверка"
    ∷ msg "recon.opening" "Входящий остаток"
    ∷ msg "recon.in" "Поступления"
    ∷ msg "recon.out" "Списания"
    ∷ msg "recon.transfers" "Переводы"
    ∷ msg "recon.closing" "Исходящий остаток"
    ∷ msg "stat.revenue" "Выручка"
    ∷ msg "stat.expenses" "Расходы"
    ∷ msg "stat.net" "Финансовый результат"
    ∷ msg "stat.unreviewed" "На проверке"
    ∷ msg "drilldown.close" "Закрыть"
    ∷ msg "drilldown.date" "Дата"
    ∷ msg "drilldown.description" "Описание"
    ∷ msg "drilldown.amount" "Сумма"
    ∷ msg "drilldown.category" "Категория"
    ∷ msg "drilldown.layer" "Слой"
    ∷ msg "drilldown.confidence" "Уверенность"
    ∷ msg "drilldown.evidence" "Сопоставление"
    ∷ msg "drilldown.operands" "Складывается из"
    ∷ msg "drilldown.empty" "В этой ячейке нет операций за этот период."
    ∷ msg "drilldown.provenance" "Таксономия {taxonomy} · правила {ruleset} · движок {engine}"
    ∷ []
